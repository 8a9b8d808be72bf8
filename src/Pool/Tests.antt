-- ===== src/Pool/Tests.antt =====
-- Pools of a few chunks: ten of 20 bytes, and ten of 32 bytes, which are more than 256 bytes.
use lwcan.Common.{ℕ, ◌≡◌, refl, some, List, ◌∷◌, arith, replicate, set}
use lwcan.Pool.{Layout, free, taken}
use lwcan.Pool.Laws.{IsSmall, chunk_addr}
use lwcan.Pool.Aliasing.{free-aliased}

abbrev narrow : Layout
narrow = record { begin_addr = 1000; chunk_size = 20 }

abbrev wide : Layout
wide = record { begin_addr = 1000; chunk_size = 32 }

abbrev flags : List ℕ
flags = taken ∷ replicate 9 0

abbrev flags-IsSmall : IsSmall narrow flags
flags-IsSmall = record { chunk_pos = omega arith; fits = omega arith }

free-aliased_example :
    free wide (some (chunk_addr wide 9)) (replicate 10 taken) ≡ set (replicate 10 taken) 1 0
free-aliased_example =
    free-aliased wide (replicate 10 taken) 8 9 (omega arith) refl (omega arith) (omega arith)
      (omega arith)
