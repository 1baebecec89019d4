-- ===== src/Client/Syncer/Chunks.antt =====
-- chunkRecords: a partition into pieces of at most the given size.
use mathlib.Core.List.{flatten}
use voldepass.Prelude.{
  ℕ, zero, suc, ◌≡◌, refl, ap, ◌∙◌, List, [], ◌∷◌, ◌++◌, ◌≤◌, ◌<◌, length, take, drop, arith, All,
  take-append-drop, length-take-le, length-drop-le,
}
use voldepass.Client.Storage.{StoredRecord}
use voldepass.Client.Syncer.Local.{chunks, chunk_records, default_chunk_size}

-- A size of 0 stands for the default.
abbrev pub chunk_limit : ℕ → ℕ
chunk_limit zero = default_chunk_size
chunk_limit (suc n) = suc n

flatten-chunks :
    (n size : ℕ) (rs : List StoredRecord) → length rs ≤ n → flatten (chunks n (suc size) rs) ≡ rs
unfolding chunks flatten
flatten-chunks zero size [] h = refl
flatten-chunks zero size (r ∷ rs) h = absurd (omega arith)
flatten-chunks (suc n) size [] h = refl
flatten-chunks (suc n) size (r ∷ rs) h =
    ap (λ (t : List StoredRecord). r ∷ take size rs ++ t)
      (flatten-chunks n size (drop size rs) (omega (arith, length-drop-le size rs)))
    ∙ ap (◌∷◌ r) (take-append-drop size rs)

chunks-All :
    (n size : ℕ) (rs : List StoredRecord)
    → All (λ c. (0 < length c) × (length c ≤ suc size)) (chunks n (suc size) rs)
unfolding chunks
chunks-All zero size rs = tt
chunks-All (suc n) size [] = tt
chunks-All (suc n) size (r ∷ rs) =
    ((omega arith, length-take-le (suc size) (r ∷ rs)), chunks-All n size (drop size rs))

-- The chunks are not empty, hold at most the chunk size (100 where it is given as 0), and together
-- are the records, in order: none is lost, doubled or moved.
pub chunk_records_lem :
    (rs : List StoredRecord) (size : ℕ)
    → (flatten (chunk_records rs size) ≡ rs)
      × All (λ c. (0 < length c) × (length c ≤ chunk_limit size)) (chunk_records rs size)
unfolding chunk_records
chunk_records_lem rs zero =
    (flatten-chunks (length rs) 99 rs (omega arith), chunks-All (length rs) 99 rs)
chunk_records_lem rs (suc n) =
    (flatten-chunks (length rs) n rs (omega arith), chunks-All (length rs) n rs)
