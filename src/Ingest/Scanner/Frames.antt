-- ===== src/Ingest/Scanner/Frames.antt =====
-- What the daemon is sent is the file.
use open_civic.Common.{
  ℕ, zero, suc, ◌≤◌, ◌<◌, ◌≡◌, refl, ap, ◌∙◌, List, [], ◌∷◌, ◌++◌, take, drop, length,
  length-take-le, length-drop, All, arith,
}
use open_civic.Ingest.Upload.{Bytes}
use open_civic.Ingest.Scanner.{frames, frames_from, chunk_size}

abbrev pub concat : List Bytes → Bytes
concat [] = []
concat (f ∷ fs) = f ++ concat fs

halves_join : (n : ℕ) (bs : Bytes) → take n bs ++ drop n bs ≡ bs
halves_join zero bs = refl
halves_join (suc n) [] = refl
halves_join (suc n) (b ∷ bs) = ap (λ t. b ∷ t) (halves_join n bs)

concat-frames_from : (fuel : ℕ) (bs : Bytes) → length bs ≤ fuel → concat (frames_from fuel bs) ≡ bs
unfolding frames_from
concat-frames_from fuel [] h = refl
concat-frames_from zero (b ∷ bs) h = absurd (omega arith)
concat-frames_from (suc fuel) (b ∷ bs) h =
    ap (λ t. take chunk_size (b ∷ bs) ++ t)
      (concat-frames_from fuel (drop chunk_size (b ∷ bs))
        (omega (arith, length-drop chunk_size (b ∷ bs))))
    ∙ halves_join chunk_size (b ∷ bs)

abbrev pub IsFrame : Bytes → Type 0
IsFrame f = (0 < length f) × (length f ≤ chunk_size)

frames_from-IsFrame : (fuel : ℕ) (bs : Bytes) → All IsFrame (frames_from fuel bs)
unfolding frames_from
frames_from-IsFrame fuel [] = tt
frames_from-IsFrame zero (b ∷ bs) = tt
frames_from-IsFrame (suc fuel) (b ∷ bs) = (
  (omega arith, length-take-le chunk_size (b ∷ bs)),
  frames_from-IsFrame fuel (drop chunk_size (b ∷ bs)),
)

pub frames-whole :
    (content : Bytes) → (concat (frames content) ≡ content) × All IsFrame (frames content)
unfolding frames
frames-whole bs =
    (concat-frames_from (length bs) bs (omega arith), frames_from-IsFrame (length bs) bs)
