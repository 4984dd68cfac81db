-- ===== src/Processing/Pending/Parking.antt =====
-- What parking an item of src-tauri/src/processing/pending.rs leaves in the store.
use knows_me.Base.{
  Member, Member-append_left, Member-append_right, ◌⊎◌, Option-cases, subst, ◌≡◌, refl, sym, ap,
  ◌∙◌, Option, none, some, List, [], ◌∷◌, arith, if◌then◌else◌, Bool-cases, inl, inr,
}
use knows_me.Base.Texts.{Text, text_eq, text_eq-eq, text_eq_refl}
use knows_me.Base.Results.{ok}
use knows_me.Io.{◌>>=◌, bind-ok}
use knows_me.Domain.{RawItem}
use knows_me.Storage.{Store, StoreLaws, Codec}
use knows_me.Storage.Documents as Documents
use knows_me.Processing.Pending.{
  PendingItem, pending_ns, pending_key, attempts_after, push, kept, drain_loop, drain,
}

module _ (S : Store) (L : StoreLaws S) (items : Codec PendingItem) (digest : Text → Text) where
  -- The parked item that a reader finds under a key.
  abbrev pub parked_at : S.State → Text → Option PendingItem
  parked_at s key = Documents.document S items pending_ns L s key

  unread :
      (k : Text) (s : S.State) (j : Text)
      → parked_at (Documents.get S items pending_ns k s).1 j ≡ parked_at s j
  unread k s j =
      ap (Documents.decoded S items pending_ns L)
        (Documents.get_keeps S items pending_ns L k s pending_ns j)

  abbrev pub parked_as : RawItem → Text → Option PendingItem → PendingItem
  parked_as raw at prev = record { raw = raw; queued_at = at; attempts = attempts_after prev }

  -- Parking an item puts it under its key, with one attempt more than what was there, and leaves the
  -- other keys alone.
  pub push-parked_at :
      (raw : RawItem) (at : Text) (s : S.State)
      → (push S items digest raw at s).0 ≡ ok tt
      → (key : Text)
      → parked_at (push S items digest raw at s).1 key ≡ (
          if text_eq (pending_key S items digest raw) key
          then some (parked_as raw at (parked_at s (pending_key S items digest raw)))
          else parked_at s key)
  unfolding push
  push-parked_at raw at s h key =
      let k0 = pending_key S items digest raw in
      let (prev, got, rest) =
        bind-ok (Documents.get S items pending_ns k0)
          (λ p. Documents.put S items pending_ns k0 (parked_as raw at p)) s tt h in
      let s1 = (Documents.get S items pending_ns k0 s).1 in
      let wrote =
        Documents.put_writes S items pending_ns L k0 (parked_as raw at prev) s1
          (ap (λ p. p.0) (sym rest) ∙ h) key in
      rw (rest, wrote, Documents.get_reads S items pending_ns L k0 s prev got, unread k0 s key) refl

  -- One round of `drain`: what the loop goes on with.
  abbrev round_state : Text → S.State → S.State
  round_state k s =
      (Documents.delete S items pending_ns k (Documents.get S items pending_ns k s).1).1

  -- A round that succeeds has read the item of its key and removed it, and no other.
  round :
      (k : Text) (keys : List Text) (out result : List PendingItem) (s : S.State)
      → (drain_loop S items digest (k ∷ keys) out s).0 ≡ ok result
      → (drain_loop S items digest (k ∷ keys) out s
          ≡ drain_loop S items digest keys (kept (parked_at s k) out) (round_state k s))
        × ((j : Text)
            → parked_at (round_state k s) j ≡ (if text_eq k j then none else parked_at s j))
  unfolding drain_loop
  round k keys out result s h =
      let (found, got, rest) =
        bind-ok (Documents.get S items pending_ns k)
          (λ p. Documents.delete S items pending_ns k >>= λ _.
            drain_loop S items digest keys (kept p out))
          s result h in
      let s1 = (Documents.get S items pending_ns k s).1 in
      let (u, gone, rest') =
        bind-ok (Documents.delete S items pending_ns k)
          (λ _. drain_loop S items digest keys (kept found out)) s1 result
          (ap (λ p. p.0) (sym rest) ∙ h) in
      (
        rw (rest, rest', Documents.get_reads S items pending_ns L k s found got) refl,
        λ j. Documents.delete_removes S items pending_ns L k s1 gone j ∙ rw (unread k s j) refl,
      )

  kept-old :
      (p : PendingItem) (o : Option PendingItem) (out : List PendingItem)
      → Member p out
      → Member p (kept o out)
  kept-old p none out m = m
  kept-old p (some q) out m = Member-append_left p out (q ∷ []) m

  kept-new :
      (p : PendingItem) (o : Option PendingItem) (out : List PendingItem)
      → o ≡ some p
      → Member p (kept o out)
  kept-new p none out e = cc
  kept-new p (some q) out e =
      let same : q ≡ p = cc in Member-append_right p out (q ∷ []) (inl (sym same))

  drain_loop-finds :
      (keys : List Text) (out result : List PendingItem) (s : S.State) (key : Text)
      (p : PendingItem)
      → (drain_loop S items digest keys out s).0 ≡ ok result
      → Member p out ⊎ (Member key keys × (parked_at s key ≡ some p))
      → Member p result
  drain_loop-finds [] out result s key p h (inl m) =
      let same : out ≡ result = unfold drain_loop in (cc (h)) in subst (Member p) same m
  drain_loop-finds [] out result s key p h (inr m) = absurd m.0
  drain_loop-finds (k ∷ keys) out result s key p h m =
      let (step, after) = round k keys out result s h in
      drain_loop-finds keys (kept (parked_at s k) out) result (round_state k s) key p
        (ap (λ x. x.0) (sym step) ∙ h) (next m after)
    where
      next :
          Member p out ⊎ (Member key (k ∷ keys) × (parked_at s key ≡ some p))
          → ((j : Text)
              → parked_at (round_state k s) j ≡ (if text_eq k j then none else parked_at s j))
          → Member p (kept (parked_at s k) out)
            ⊎ (Member key keys × (parked_at (round_state k s) key ≡ some p))
      next (inl old) after = inl (kept-old p (parked_at s k) out old)
      next (inr (inl here, there)) after = inl (kept-new p (parked_at s k) out (rw (← here) there))
      next (inr (inr later, there)) after = elim (Bool-cases (text_eq k key)) [
        | inl e ↦ inl (kept-new p (parked_at s k) out (rw (text_eq-eq k key e) there))
        | inr e ↦ inr (later, after key ∙ rw e there)
      ]

  drain_loop-empties :
      (keys : List Text) (out result : List PendingItem) (s : S.State) (key : Text)
      → (drain_loop S items digest keys out s).0 ≡ ok result
      → Member key keys ⊎ (parked_at s key ≡ none)
      → parked_at (drain_loop S items digest keys out s).1 key ≡ none
  drain_loop-empties [] out result s key h (inl m) = absurd m
  drain_loop-empties [] out result s key h (inr e) = unfold drain_loop in e
  drain_loop-empties (k ∷ keys) out result s key h m =
      let (step, after) = round k keys out result s h in
      ap (λ x. parked_at x.1 key) step
      ∙ drain_loop-empties keys (kept (parked_at s k) out) result (round_state k s) key
          (ap (λ x. x.0) (sym step) ∙ h) (next m after)
    where
      next :
          Member key (k ∷ keys) ⊎ (parked_at s key ≡ none)
          → ((j : Text)
              → parked_at (round_state k s) j ≡ (if text_eq k j then none else parked_at s j))
          → Member key keys ⊎ (parked_at (round_state k s) key ≡ none)
      next (inl (inl here)) after = inr (after key ∙ rw (here, text_eq_refl k) refl)
      next (inl (inr later)) after = inl later
      next (inr e) after = inr (after key ∙ ground (arith, e))

  -- A drain that succeeds gives back every parked item, and leaves none.
  pub drain-all :
      (s : S.State) (result : List PendingItem)
      → (drain S items digest s).0 ≡ ok result
      → ((key : Text) (p : PendingItem) → parked_at s key ≡ some p → Member p result)
        × ((key : Text) → parked_at (drain S items digest s).1 key ≡ none)
  unfolding drain
  drain-all s result h =
      let (keys, listed, rest) =
        bind-ok (S.list pending_ns) (λ ks. drain_loop S items digest ks []) s result h in
      let s1 = (S.list pending_ns s).1 in
      let looped = ap (λ x. x.0) (sym rest) ∙ h in
      let same : (j : Text) → parked_at s1 j ≡ parked_at s j =
        λ j. ap (Documents.decoded S items pending_ns L) (L.list_keeps pending_ns s pending_ns j) in
      (
        λ key p there. drain_loop-finds keys [] result s1 key p looped (
            inr (
              L.list_finds pending_ns s keys listed key
                  (λ none_there. found_in key p there none_there),
              same key ∙ there,
            )),
        λ key.
            ap (λ x. parked_at x.1 key) rest
            ∙ drain_loop-empties keys [] result s1 key looped (at key keys listed same),
      )
    where
      found_in :
          (key : Text) (p : PendingItem)
          → parked_at s key ≡ some p
          → L.view s pending_ns key ≡ none
          → ⊥
      found_in key p there gone = let x = rw gone at there in absurd (cc x)

      at :
          (key : Text) (keys : List Text)
          → (S.list pending_ns s).0 ≡ ok keys
          → ((j : Text) → parked_at (S.list pending_ns s).1 j ≡ parked_at s j)
          → Member key keys ⊎ (parked_at (S.list pending_ns s).1 key ≡ none)
      at key keys listed same = elim (Option-cases (L.view s pending_ns key)) [
        | inl gone ↦ inr (same key ∙ rw gone refl)
        | inr (b, there) ↦
            inl (L.list_finds pending_ns s keys listed key (λ gone. cc (gone, there)))
      ]
