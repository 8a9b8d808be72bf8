-- ===== src/Isotp/Tests/Drivers.antt =====
-- Drivers that count the frames of each connection that they have not reported, and a connection
-- that sends its message again whenever it was sent.
use lwcan.Common.{
  ℕ, suc, ◌≡◌, ◌≢◌, ◌≤◌, ◌==◌, refl, sym, ap, some, true, false, if◌then◌else◌, Option, List, ◌>>=◌,
  arith, replicate, length, length-replicate,
}
use mathlib.Core.Option.{some-injective}
use lwcan.Can.{ok}
use lwcan.Buffer.{Block}
use lwcan.Isotp.Types.{Ctx, Pcb, Platform, input, output, Direction}
use lwcan.Isotp.Output.{isotp_send}
use lwcan.Isotp.Safety.{IsSafe, Safe}
use lwcan.Isotp.Safety.Starting.{isotp_send-Safe}
use lwcan.Isotp.Safety.Together.{Environment, view, surroundings}
use lwcan.Isotp.Tests.{options, frame, message}

-- How many frames of each connection are unreported
abbrev pub Counts : Type 0
Counts = ℕ → ℕ

abbrev pub unreported : ℕ → Counts → ℕ
unreported a e = e a

abbrev pub took : ℕ → Counts → Counts
took a e = λ b. if b == a then suc (e b) else e b

-- An answer is not reported.
abbrev reports : ℕ → Direction → Counts → Counts
reports a input e = e
reports a output e = took a e

abbrev counting : ℕ → Platform Counts
counting a = record {
  alloc = record {
    malloc = λ size e. (some (record { addr = 4096; bytes = replicate size 0xcc }), e);
    free = λ addr e. e;
    buffer_size = 16;
  };
  layout = record { begin_addr = 100; chunk_size = 20 };
  system_now = λ e. 7;
  uninit = λ e. frame;
  send = λ canif f time_ms d e. (ok, reports a d e);
  receive_cb = λ fn arg buffer c. some c;
  receive_ff_cb = λ fn arg c. some c;
  sent_cb = λ fn arg size c. some c;
  error_cb = λ fn arg error c. some c;
}

gives_room :
    (a n : ℕ) (e : Counts) (b : Block) (e' : Counts)
    → (counting a).alloc.malloc n e ≡ (some b, e')
    → n ≤ length b.bytes
gives_room a n e b e' got =
    let is : record { addr = 4096; bytes = replicate n 0xcc } ≡ b =
      some-injective _ _ (ap (λ r. r.0) got) in
    rw (sym is) (omega (arith, length-replicate {A = ℕ} n 0xcc))

never : true ≡ false → (m n : ℕ) → m ≤ n
never wrong m n = absurd (cc)

took_one : (a : ℕ) (e : Counts) → took a e a ≤ suc (e a)
took_one a e = ground arith

took_aside : (a b : ℕ) (d : Direction) (e : Counts) → b ≢ a → reports a d e b ≤ e b
took_aside a b input e ne = omega arith
took_aside a b output e ne = ground arith

abbrev counts : Environment counting options unreported
counts = record {
  heap = λ a b. record { malloc = λ n e. refl; free = λ addr e. refl };
  room = gives_room;
  blank = λ a e. omega arith;
  accepts = λ a canif f time_ms e. took_one a e;
  refuses = λ a canif f time_ms e refused. never refused _ _;
  answers = λ a canif f time_ms e. omega arith;
  aside = λ a b canif f time_ms d e ne. took_aside a b d e ne;
  receives = λ a others fn arg buffer c safe. (c, refl, safe);
  begins = λ a others fn arg c safe. (c, refl, safe);
  finishes = λ a others fn arg n c safe. (c, refl, safe);
  fails = λ a others fn arg error c safe. (c, refl, safe, refl, refl);
}

abbrev send_again : ℕ → Ctx Counts → Option (Ctx Counts)
send_again a c = isotp_send (counting a) options (some message) 7 c >>= λ r. some r.1

abbrev pub resending : ℕ → Platform Counts
resending a = record (counting a) { sent_cb = λ fn arg size c. send_again a c }

send_again-Safe :
    (a : ℕ) (others : List Pcb) (c : Ctx Counts)
    → IsSafe (resending a) options (view resending options unreported a others) c
    → Safe (resending a) options (view resending options unreported a others) (send_again a c)
send_again-Safe a others c safe =
    let (error, c', e, kept) =
      isotp_send-Safe (counting a) options (view counting options unreported a others)
        (surroundings counting options unreported a others counts) message 7 c (omega arith)
        (omega arith) (record { outgoing = safe.outgoing; rest = safe.rest }) in
    (c', ap (λ m. m >>= λ r. some r.1) e, record { outgoing = kept.outgoing; rest = kept.rest })

pub resends : Environment resending options unreported
resends = record {
  heap = counts.heap;
  room = counts.room;
  blank = counts.blank;
  accepts = counts.accepts;
  refuses = counts.refuses;
  answers = counts.answers;
  aside = counts.aside;
  receives = λ a others fn arg buffer c safe. (c, refl, safe);
  begins = λ a others fn arg c safe. (c, refl, safe);
  finishes = λ a others fn arg n c safe. send_again-Safe a others c safe;
  fails = λ a others fn arg error c safe. (c, refl, safe, refl, refl);
}
