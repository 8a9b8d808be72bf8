-- ===== src/Uds/Machine.antt =====
-- src/apps/uds/uds_client.c: the client, while it is not connecting, as a state machine: an abstract
-- description of its answers, against which its functions are compared.
use lwcan.Common.{
  ℕ, ◌≡◌, ◌⊎◌, refl, sym, Bool, true, false, Option, none, some, List, [], ◌∷◌, arith, ◌==◌, ◌||◌,
  not, inl, inr, Bool-cases, length, ◌>>=◌, if◌then◌else◌, get_elem?,
}
use mathlib.Core.Option.{some-injective, none-ne-some}
use lwcan.Timeouts.{Timers}
use lwcan.Isotp.Types.{Ctx}
use lwcan.Uds.{
  UdsPhase, uds_idle, connecting, sending_request, wait_response, wait_segmented, response_pending,
  World, in_phase,
}
use lwcan.Uds.Responses.{negative_response_sid, response_pending_nrc, buffer_at}
use lwcan.Uds.Calm.{Fits, p2_pending, p2_star_pending}

-- What happens to the client
pub data Observed : Type 0 where
  asked answered deferred announced failed expired ignored : Observed
  delivered : Bool → Observed

-- The state machine
unfoldable pub next : UdsPhase → Observed → UdsPhase
next s answered = uds_idle
next s failed = uds_idle
next s expired = uds_idle
next s ignored = s
next uds_idle asked = sending_request
next s asked = s
next sending_request (delivered true) = wait_response
next sending_request (delivered false) = uds_idle
next s (delivered wanted) = s
next uds_idle deferred = uds_idle
next s deferred = response_pending
next uds_idle announced = uds_idle
next s announced = wait_segmented

-- What a response says: `none` is too short to be one.
unfoldable pub observe_nrc : List ℕ → Option Observed
observe_nrc (sid ∷ nrc ∷ rest) =
    if nrc == response_pending_nrc then some deferred else some answered
observe_nrc _ = none

unfoldable pub observe_bytes : List ℕ → Option Observed
unfolding observe_nrc
observe_bytes [] = none
observe_bytes (sid ∷ rest) =
    if sid == negative_response_sid then observe_nrc rest else some answered

module _ {E : Type 0} where
  -- The idle client does not read a response.
  abbrev pub observe_response : Option ℕ → Ctx (World E) → Option Observed
  observe_response buffer c =
      if in_phase c.ext.uds.state uds_idle
      then some answered
      else (buffer_at buffer c.pcb.input_flow.buffer >>= λ b. observe_bytes b.payload.bytes)

  abbrev pub observe_request : List ℕ → Ctx (World E) → Observed
  observe_request request c =
      if (length request == 0) || not c.ext.uds.is_connected then ignored else asked

pub idle-eq : (s : UdsPhase) → in_phase s uds_idle ≡ true → s ≡ uds_idle
idle-eq uds_idle e = refl
idle-eq connecting e = absurd (ground arith)
idle-eq sending_request e = absurd (ground arith)
idle-eq wait_response e = absurd (ground arith)
idle-eq wait_segmented e = absurd (ground arith)
idle-eq response_pending e = absurd (ground arith)

pub sending-eq : (s : UdsPhase) → in_phase s sending_request ≡ true → s ≡ sending_request
sending-eq uds_idle e = absurd (ground arith)
sending-eq connecting e = absurd (ground arith)
sending-eq sending_request e = refl
sending-eq wait_response e = absurd (ground arith)
sending-eq wait_segmented e = absurd (ground arith)
sending-eq response_pending e = absurd (ground arith)

pub next-busy :
    (s : UdsPhase)
    → in_phase s uds_idle ≡ false
    → (next s deferred ≡ response_pending) × (next s announced ≡ wait_segmented)
unfolding next
next-busy uds_idle e = absurd (ground arith)
next-busy connecting e = (refl, refl)
next-busy sending_request e = (refl, refl)
next-busy wait_response e = (refl, refl)
next-busy wait_segmented e = (refl, refl)
next-busy response_pending e = (refl, refl)

pub next-asked_busy : (s : UdsPhase) → in_phase s uds_idle ≡ false → next s asked ≡ s
unfolding next
next-asked_busy uds_idle e = absurd (ground arith)
next-asked_busy connecting e = refl
next-asked_busy sending_request e = refl
next-asked_busy wait_response e = refl
next-asked_busy wait_segmented e = refl
next-asked_busy response_pending e = refl

pub next-not_sending :
    (s : UdsPhase) (wanted : Bool)
    → in_phase s sending_request ≡ false
    → next s (delivered wanted) ≡ s
unfolding next
next-not_sending uds_idle wanted e = refl
next-not_sending connecting wanted e = refl
next-not_sending sending_request wanted e = absurd (ground arith)
next-not_sending wait_response wanted e = refl
next-not_sending wait_segmented wanted e = refl
next-not_sending response_pending wanted e = refl

pub p2-wait :
    (s : UdsPhase) (t : Timers) → Fits s t → (p2_pending t == 0) ≡ false → s ≡ wait_response
p2-wait uds_idle t f due = absurd (ground (arith, f.0))
p2-wait connecting t f due = absurd (ground (arith, f.0))
p2-wait sending_request t f due = absurd (ground (arith, f.0))
p2-wait wait_response t f due = refl
p2-wait wait_segmented t f due = absurd (ground (arith, f.0))
p2-wait response_pending t f due = absurd (ground (arith, f.0))

pub p2_star-pending :
    (s : UdsPhase) (t : Timers) → Fits s t → (p2_star_pending t == 0) ≡ false → s ≡ response_pending
p2_star-pending uds_idle t f due = absurd (ground (arith, f.1))
p2_star-pending connecting t f due = absurd (ground (arith, f.1))
p2_star-pending sending_request t f due = absurd (ground (arith, f.1))
p2_star-pending wait_response t f due = absurd (ground (arith, f.1))
p2_star-pending wait_segmented t f due = absurd (ground (arith, f.1))
p2_star-pending response_pending t f due = refl

-- The bytes that a response has
pub observe_bytes-cases :
    (bytes : List ℕ) (happened : Observed)
    → observe_bytes bytes ≡ some happened
    → ((sid : ℕ) × (get_elem? bytes 0 ≡ some sid)
        × ((sid == negative_response_sid) ≡ false)
        × (happened ≡ answered))
      ⊎ ((sid : ℕ) × (rejected_sid : ℕ) × (nrc : ℕ) × (get_elem? bytes 0 ≡ some sid)
          × ((sid == negative_response_sid) ≡ true)
          × (get_elem? bytes 1 ≡ some rejected_sid)
          × (get_elem? bytes 2 ≡ some nrc)
          × (some happened
              ≡ (if nrc == response_pending_nrc then some deferred else some answered)))
unfolding observe_bytes observe_nrc
observe_bytes-cases [] happened e = absurd (ground arith)
observe_bytes-cases (sid ∷ []) happened e = elim (Bool-cases (sid == negative_response_sid)) [
  | inl negative ↦ absurd (none-ne-some _ (rw negative at e))
  | inr positive ↦ inl (sid, refl, positive, sym (some-injective _ _ (rw positive at e)))
]
observe_bytes-cases (sid ∷ x ∷ []) happened e = elim (Bool-cases (sid == negative_response_sid)) [
  | inl negative ↦ absurd (none-ne-some _ (rw negative at e))
  | inr positive ↦ inl (sid, refl, positive, sym (some-injective _ _ (rw positive at e)))
]
observe_bytes-cases (sid ∷ x ∷ nrc ∷ rest) happened e =
    elim (Bool-cases (sid == negative_response_sid)) [
      | inl negative ↦ inr (sid, x, nrc, refl, negative, refl, refl, sym (rw negative at e))
      | inr positive ↦ inl (sid, refl, positive, sym (some-injective _ _ (rw positive at e)))
    ]

-- The machine never starts to connect.
pub next-apart :
    (s : UdsPhase) (happened : Observed)
    → in_phase s connecting ≡ false
    → in_phase (next s happened) connecting ≡ false
unfolding next
next-apart uds_idle asked e = refl
next-apart uds_idle answered e = refl
next-apart uds_idle deferred e = refl
next-apart uds_idle announced e = refl
next-apart uds_idle failed e = refl
next-apart uds_idle expired e = refl
next-apart uds_idle ignored e = refl
next-apart uds_idle (delivered true) e = refl
next-apart uds_idle (delivered false) e = refl
next-apart connecting happened e = absurd (ground arith)
next-apart sending_request asked e = refl
next-apart sending_request answered e = refl
next-apart sending_request deferred e = refl
next-apart sending_request announced e = refl
next-apart sending_request failed e = refl
next-apart sending_request expired e = refl
next-apart sending_request ignored e = refl
next-apart sending_request (delivered true) e = refl
next-apart sending_request (delivered false) e = refl
next-apart wait_response asked e = refl
next-apart wait_response answered e = refl
next-apart wait_response deferred e = refl
next-apart wait_response announced e = refl
next-apart wait_response failed e = refl
next-apart wait_response expired e = refl
next-apart wait_response ignored e = refl
next-apart wait_response (delivered true) e = refl
next-apart wait_response (delivered false) e = refl
next-apart wait_segmented asked e = refl
next-apart wait_segmented answered e = refl
next-apart wait_segmented deferred e = refl
next-apart wait_segmented announced e = refl
next-apart wait_segmented failed e = refl
next-apart wait_segmented expired e = refl
next-apart wait_segmented ignored e = refl
next-apart wait_segmented (delivered true) e = refl
next-apart wait_segmented (delivered false) e = refl
next-apart response_pending asked e = refl
next-apart response_pending answered e = refl
next-apart response_pending deferred e = refl
next-apart response_pending announced e = refl
next-apart response_pending failed e = refl
next-apart response_pending expired e = refl
next-apart response_pending ignored e = refl
next-apart response_pending (delivered true) e = refl
next-apart response_pending (delivered false) e = refl
