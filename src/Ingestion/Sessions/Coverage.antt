-- ===== src/Ingestion/Sessions/Coverage.antt =====
-- What a run takes is not taken again: the watermarks of
-- src-tauri/src/ingestion/connectors/session.rs.
use knows_me.Base.{◌≡◌, refl, Bool, true, false, Option, none, some, List, [], ◌∷◌, arith, leb, All}
use knows_me.Domain.{Time}
use knows_me.Ingestion.Sessions.{
  SessionFile, Watermarks, covered, advance, is_pending, newer, older, later, earlier,
}

abbrev reaches : Option Time → Time → Bool
reaches none x = false
reaches (some o) x = leb o x

newer-later :
    (o : Option Time) (m x : Time) → newer o x ≡ false → newer (some (later o m)) x ≡ false
newer-later none m x h = cc
newer-later (some n) m x h = ground (arith, h)

newer-later-same : (o : Option Time) (m : Time) → newer (some (later o m)) m ≡ false
newer-later-same none m = ground (arith)
newer-later-same (some n) m = ground (arith)

reaches-earlier :
    (o : Option Time) (m x : Time) → reaches o x ≡ true → reaches (some (earlier o m)) x ≡ true
reaches-earlier none m x h = cc
reaches-earlier (some o) m x h = ground (arith, h)

reaches-earlier-same : (o : Option Time) (m : Time) → reaches (some (earlier o m)) m ≡ true
reaches-earlier-same none m = ground (arith)
reaches-earlier-same (some o) m = ground (arith)

older-reaches : (o : Option Time) (x : Time) → reaches o x ≡ true → older o x ≡ false
older-reaches none x h = refl
older-reaches (some o) x h = ground (arith, h)

newer-advance :
    (w : Watermarks) (fs : List SessionFile) (x : Time)
    → newer w.newest x ≡ false
    → newer (advance w fs).newest x ≡ false
unfolding advance
newer-advance w [] x h = h
newer-advance w (f ∷ fs) x h =
    newer-advance (covered w f) fs x (newer-later w.newest f.modified x h)

reaches-advance :
    (w : Watermarks) (fs : List SessionFile) (x : Time)
    → reaches w.oldest x ≡ true
    → reaches (advance w fs).oldest x ≡ true
unfolding advance
reaches-advance w [] x h = h
reaches-advance w (f ∷ fs) x h =
    reaches-advance (covered w f) fs x (reaches-earlier w.oldest f.modified x h)

is_pending-covered :
    (w : Watermarks) (f : SessionFile) (fs : List SessionFile)
    → is_pending (advance (covered w f) fs) f ≡ false
is_pending-covered w f fs =
    let above = newer-advance (covered w f) fs f.modified (newer-later-same w.newest f.modified) in
    let low = reaches-earlier-same w.oldest f.modified in
    let below =
      older-reaches (advance (covered w f) fs).oldest f.modified
        (reaches-advance (covered w f) fs f.modified low) in
    rw (above, below) refl

-- After the watermarks have moved past transcripts, none of these is newer than the one mark or
-- older than the other, so no later run takes it and it is not counted as left.
pub advance-Settles :
    (w : Watermarks) (fs : List SessionFile) → All (λ f. is_pending (advance w fs) f ≡ false) fs
unfolding advance
advance-Settles w [] = tt
advance-Settles w (f ∷ fs) = (is_pending-covered w f fs, advance-Settles (covered w f) fs)
