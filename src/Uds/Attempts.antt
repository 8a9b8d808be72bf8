-- ===== src/Uds/Attempts.antt =====
-- src/apps/uds/uds_client.c: the attempts of `uds_client_connect`.
use lwcan.Common.{
  ℕ, zero, suc, ◌≡◌, ◌⊎◌, ◌<◌, refl, ap, ◌∙◌, true, false, Option, some, [], ◌∷◌, arith, ◌==◌, ◌&&◌,
  not, inl, inr, Bool-cases, ◌>>=◌, if◌then◌else◌, if_true, if_false,
}
use lwcan.Common.Bytes.{sub8}
use lwcan.Can.{LwcanErr, aborted, is_ok}
use lwcan.Isotp.Types.{Ctx, Platform, Options}
use lwcan.Uds.{UdsOptions, World, App, connecting, in_phase, uds_idle, set_uds, set_phase}
use lwcan.Uds.Requests.{
  tester_present_sid, then_idle, call_connect, connect_try_sent, uds_connect_try,
}
use lwcan.Uds.Calm.{Quiet}
use lwcan.Uds.Heap.{Heap, uds_isotp_send-Returns}

module _ {E : Type 0} (p : Platform (World E)) (o : Options) (u : UdsOptions) (a : App E)
    (between : Ctx (World E) → Ctx (World E)) where
  -- The attempts that follow while the client is connecting; `between` is what happens from one to
  -- the next.
  pub attempts : ℕ → Ctx (World E) → Option (Ctx (World E))
  attempts zero c = some c
  attempts (suc n) c = uds_connect_try p o u a c >>= λ c'.
      (let rest = attempts n (between c') in
        if in_phase c'.ext.uds.state connecting then rest else some c')

  -- A client that has so many attempts left
  abbrev pub Connecting : ℕ → Ctx (World E) → Type 0
  Connecting left c =
      (c.ext.uds.state ≡ connecting)
      × (c.ext.uds.is_connected ≡ false)
      × (c.ext.uds.connect_try_num ≡ left)
      × ((fn : ℕ) × (c.ext.uds.connect_cb ≡ some fn))

  module _ (q : Quiet a) (h : Heap p) where
    -- The callback, and the idle state
    gives_up :
        (error : LwcanErr) (c : Ctx (World E)) (fn : ℕ)
        → c.ext.uds.connect_cb ≡ some fn
        → (c' : Ctx (World E)) × (then_idle (call_connect a error c) ≡ some c')
          × (c'.ext.uds.state ≡ uds_idle)
    unfolding call_connect
    gives_up error c fn set =
        let (c', called, _) = q.connects fn c.ext.uds.connect_cb_arg error c in
        (set_phase uds_idle c', simp (call_connect, set, called) refl, refl)

    -- One attempt ends the connecting, or is one less.
    attempt :
        (left : ℕ) (c : Ctx (World E))
        → left < 256
        → Connecting left c
        → (c' : Ctx (World E)) × (uds_connect_try p o u a c ≡ some c')
          × ((c'.ext.uds.state ≡ uds_idle) ⊎ ((n : ℕ) × (left ≡ suc n) × Connecting n c'))
    unfolding uds_connect_try connect_try_sent
    attempt zero c small (state, apart, none_left, (fn, set)) =
        let over : (not c.ext.uds.is_connected && (c.ext.uds.connect_try_num == 0)) ≡ true =
          rw (apart, none_left) refl in
        let (c', given_up, to) = gives_up aborted c fn set in
        (c', if_true _ _ _ over ∙ given_up, inl to)
    attempt (suc n) c small (state, apart, left, (fn, set)) =
        let more : (not c.ext.uds.is_connected && (c.ext.uds.connect_try_num == 0)) ≡ false =
          rw (apart, left) (ground arith) in
        let tried =
          set_uds
            (record (c.ext.uds) {
              connect_try_time = p.system_now c.ext;
              connect_try_num = sub8 c.ext.uds.connect_try_num 1;
            })
            c in
        let (error, c', sent, kept, _) =
          uds_isotp_send-Returns p o h (tester_present_sid ∷ 0 ∷ []) tried in
        let went : uds_connect_try p o u a c ≡ connect_try_sent p o u a (error, c') =
          if_false _ _ _ more ∙ ap (λ m. m >>= connect_try_sent p o u a) sent in
        elim (Bool-cases (is_ok error)) [
          | inl fine ↦ (
            c',
            went ∙ if_true _ _ _ fine,
            inr (
              n,
              refl,
              (
                ap (λ w. w.state) kept ∙ state,
                ap (λ w. w.is_connected) kept ∙ apart,
                ap (λ w. w.connect_try_num) kept ∙ (ap (λ k. sub8 k 1) left ∙ omega (arith, small)),
                (fn, ap (λ w. w.connect_cb) kept ∙ set),
              ),
            ),
          )
          | inr refused ↦
              let (c₁, given_up, to) = gives_up error c' fn (ap (λ w. w.connect_cb) kept ∙ set) in
              (c₁, went ∙ (if_false _ _ _ refused ∙ given_up), inl to)
        ]

    one_attempt :
        (n : ℕ) (c c' : Ctx (World E))
        → uds_connect_try p o u a c ≡ some c'
        → attempts (suc n) c
          ≡ (if in_phase c'.ext.uds.state connecting then attempts n (between c') else some c')
    unfolding attempts
    one_attempt n c c' tried = rw tried refl

    last_attempt :
        (n : ℕ) (c c' : Ctx (World E))
        → uds_connect_try p o u a c ≡ some c'
        → c'.ext.uds.state ≡ uds_idle
        → attempts (suc n) c ≡ some c'
    last_attempt n c c' tried to =
        let quiet : in_phase c'.ext.uds.state connecting ≡ false = rw to refl in
        one_attempt n c c' tried ∙ if_false _ _ _ quiet

    -- Where a client that is connecting has so many attempts left, fewer than 256, the
    -- application's functions leave the client's state and the timers alone, the heap leaves the
    -- client's state alone and gives blocks as large as it is asked for, and what happens between
    -- two attempts leaves the client's state alone: with one attempt more, whatever isotp_send
    -- returns, the client is idle.
    pub attempts-uds_idle :
        (left : ℕ) (c : Ctx (World E))
        → left < 256
        → ((c : Ctx (World E)) → (between c).ext.uds ≡ c.ext.uds)
        → Connecting left c
        → (c' : Ctx (World E)) × (attempts (suc left) c ≡ some c') × (c'.ext.uds.state ≡ uds_idle)
    unfolding attempts
    attempts-uds_idle zero c small keeps now =
        let (c', tried, ended) = attempt zero c small now in
        elim ended [
          | inl to ↦ (c', last_attempt zero c c' tried to, to)
          | inr (n, less, _) ↦ absurd (omega (arith, less))
        ]
    attempts-uds_idle (suc left) c small keeps now =
        let (c', tried, ended) = attempt (suc left) c small now in
        elim ended [
          | inl to ↦ (c', last_attempt (suc left) c c' tried to, to)
          | inr (n, less, (state, apart, num, (fn, set))) ↦
              let same = keeps c' in
              let (c₁, rest, to) =
                attempts-uds_idle left (between c') (omega (arith, small)) keeps (
                  ap (λ w. w.state) same ∙ state,
                  ap (λ w. w.is_connected) same ∙ apart,
                  ap (λ w. w.connect_try_num) same ∙ (num ∙ omega (arith, less)),
                  (fn, ap (λ w. w.connect_cb) same ∙ set),
                ) in
              let again : in_phase c'.ext.uds.state connecting ≡ true = rw state refl in
              (c₁, one_attempt (suc left) c c' tried ∙ (if_true _ _ _ again ∙ rest), to)
        ]
