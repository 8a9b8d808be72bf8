-- ===== src/Length.antt =====
-- src/length.c: the data length codes of CAN FD frames.
use lwcan.Common.{
  ℕ, ◌≤◌, ◌<◌, ◌≡◌, Bool, true, List, [], ◌∷◌, ◌++◌, refl, arith, replicate, get_or, ltb, leb,
  leb→le, ltb→lt, ◌==◌, ==_iff, ◌||◌, not, if◌then◌else◌, bit_and,
}
use lwcan.Common.Bytes.{every, every_lem}
use lwcan.Can.{canfd_max_dlen, canfd_max_dlc}

abbrev pub dlc_to_length : List ℕ
dlc_to_length = 0 ∷ 1 ∷ 2 ∷ 3 ∷ 4 ∷ 5 ∷ 6 ∷ 7 ∷ 8 ∷ 12 ∷ 16 ∷ 20 ∷ 24 ∷ 32 ∷ 48 ∷ 64 ∷ []

abbrev pub length_to_dlc : List ℕ
length_to_dlc =
    (0 ∷ 1 ∷ 2 ∷ 3 ∷ 4 ∷ 5 ∷ 6 ∷ 7 ∷ 8 ∷ [])
    ++ (replicate 4 9
        ++ (replicate 4 10
            ++ (replicate 4 11
                ++ (replicate 4 12 ++ (replicate 8 13 ++ (replicate 16 14 ++ replicate 16 15))))))

unfoldable pub can_fd_dlc2len : ℕ → ℕ
can_fd_dlc2len dlc = get_or dlc_to_length (bit_and dlc 0x0f) 0

unfoldable pub can_fd_len2dlc : ℕ → ℕ
can_fd_len2dlc length =
    if ltb canfd_max_dlen length then canfd_max_dlc else get_or length_to_dlc length 0

dlc_table : every 16 (λ dlc. can_fd_len2dlc (can_fd_dlc2len dlc) == dlc) ≡ true
unfolding every can_fd_len2dlc can_fd_dlc2len
dlc_table = refl

-- A DLC below 16, turned into a length and back, is the same.
pub len2dlc-dlc2len : (dlc : ℕ) → dlc < 16 → can_fd_len2dlc (can_fd_dlc2len dlc) ≡ dlc
len2dlc-dlc2len dlc h = (==_iff _ _).0 (every_lem 16 _ dlc dlc_table h)

range_table : every 65 (λ n. ltb (can_fd_len2dlc n) 16) ≡ true
unfolding every can_fd_len2dlc
range_table = refl

room_table : every 65 (λ n. leb n (can_fd_dlc2len (can_fd_len2dlc n))) ≡ true
unfolding every can_fd_len2dlc can_fd_dlc2len
room_table = refl

-- Where a DLC gives at least `n` bytes, it gives no fewer than the one for `n`.
abbrev is_least : ℕ → ℕ → Bool
is_least n dlc =
    not (leb n (can_fd_dlc2len dlc)) || leb (can_fd_dlc2len (can_fd_len2dlc n)) (can_fd_dlc2len dlc)

least_table : every 65 (λ n. every 16 (is_least n)) ≡ true
unfolding every can_fd_len2dlc can_fd_dlc2len
least_table = refl

least_lem :
    (n dlc : ℕ)
    → is_least n dlc ≡ true
    → n ≤ can_fd_dlc2len dlc
    → can_fd_dlc2len (can_fd_len2dlc n) ≤ can_fd_dlc2len dlc
least_lem n dlc e h = ground arith

-- For a length of at most 64 bytes can_fd_len2dlc gives a DLC below 16 whose length is enough, and
-- no DLC below 16 whose length is enough has a shorter one.
pub len2dlc-least :
    (n : ℕ)
    → n ≤ 64
    → (can_fd_len2dlc n < 16)
      × (n ≤ can_fd_dlc2len (can_fd_len2dlc n))
      × ((dlc : ℕ)
          → dlc < 16
          → n ≤ can_fd_dlc2len dlc
          → can_fd_dlc2len (can_fd_len2dlc n) ≤ can_fd_dlc2len dlc)
len2dlc-least n h =
    let small : n < 65 = omega arith in
    (
      ltb→lt _ _ (every_lem 65 _ n range_table small),
      leb→le _ _ (every_lem 65 _ n room_table small),
      λ dlc k e.
          least_lem n dlc
            (every_lem 16 (is_least n) dlc
              (every_lem 65 (λ n. every 16 (is_least n)) n least_table small) k)
            e,
    )
