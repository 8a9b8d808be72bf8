-- ===== src/Stack/Input.antt =====
-- `canif_input` of src/canif.c: which connection gets a frame.
use mathlib.Core.Path.{subst}
use lwcan.Common.{
  ℕ, true, false, ◌≡◌, ◌⊎◌, refl, sym, inl, inr, ◌≢◌, ◌∷◌, ◌++◌, All, Option, none, some, List,
  ◌>>=◌, if◌then◌else◌, ap, ◌∙◌, if_true,
}
use lwcan.Can.{LwcanErr, ok, Frame}
use lwcan.Pool.Slots.{Slots}
use lwcan.Canif.{Canif, get_index}
use lwcan.Isotp.Types.{Pcb, Platform, Options}
use lwcan.Isotp.Connections.{is_pcb_for}
use lwcan.Isotp.Input.{dispatch}
use lwcan.Isotp.Layer.{Layer, focused, put_back, isotp_input_lem}
use lwcan.Raw.{CanrawPcb, canraw_input, unmatched}
use lwcan.Raw.Receiving.{canraw_input_lem}
use lwcan.Stack.{StackOptions, Stack, input_behind_raw, canif_input}

behind :
    {A B C : Type 0} (m : Option A) (f : A → B) (g : B → C)
    → ((m >>= λ a. some (f a)) >>= λ b. some (g b)) ≡ (m >>= λ a. some (g (f a)))
behind none f g = refl
behind (some a) f g = refl

module _ {Ext : Type 0} (so : StackOptions) (p : Platform Ext) (o : Options)
    (receive : ℕ → ℕ → CanrawPcb → Frame → Layer Ext → ℕ × Layer Ext) where
  -- The raw connections leave a frame: none has the interface, or the first one that has it has no
  -- callback, or its callback returns 0, and `after` is what it leaves of `before`.
  abbrev pub IsLeft : Canif → Frame → List CanrawPcb → Layer Ext → Layer Ext → Type 0
  IsLeft iface frame list before after =
      (All (λ u. u.if_index ≢ get_index (some iface)) list × (after ≡ before))
      ⊎ ((pre : List CanrawPcb) × (pcb : CanrawPcb) × (next : List CanrawPcb) × (list
            ≡ pre ++ (pcb ∷ next))
          × (pcb.if_index ≡ get_index (some iface))
          × All (λ u. u.if_index ≢ get_index (some iface)) pre
          × (((pcb.receive ≡ none) × (after ≡ before))
              ⊎ ((fn : ℕ) × (pcb.receive ≡ some fn)
                  × (receive fn pcb.callback_arg pcb frame before ≡ (0, after)))))

  -- The ISO-TP layer gets a frame: where no connection has the interface and the identifier,
  -- nothing changes, and otherwise the first that has them handles it, and is put back.
  abbrev pub IsRouted :
      Canif → Frame → Slots CanrawPcb → Layer Ext → Option (LwcanErr × Stack Ext) → Type 0
  IsRouted iface frame raw layer result =
      (All (λ u. is_pcb_for (get_index (some iface)) frame.can_id u ≡ false) layer.connections.list
        × (result ≡ some (ok, record { raw = raw; layer = layer })))
      ⊎ ((pre : List Pcb) × (pcb : Pcb) × (post : List Pcb) × (layer.connections.list
            ≡ pre ++ (pcb ∷ post))
          × (pcb.if_index ≡ get_index (some iface))
          × (pcb.rx_id ≡ frame.can_id)
          × All (λ u. is_pcb_for (get_index (some iface)) frame.can_id u ≡ false) pre
          × (result ≡ (
              dispatch p o frame (focused pcb layer) >>= λ c.
              some (ok, record { raw = raw; layer = put_back pre post layer c }))))

  behind_raw-IsRouted :
      (iface : Canif) (frame : Frame) (raw : Slots CanrawPcb) (layer : Layer Ext)
      → so.with_isotp ≡ true
      → IsRouted iface frame raw layer
          (input_behind_raw so p o receive iface frame (unmatched, raw, layer))
  unfolding input_behind_raw
  behind_raw-IsRouted iface frame raw layer with_isotp =
      elim (isotp_input_lem p o iface frame layer) [
        | inl (others, e) ↦ inl (
          others,
          if_true _ _ _ with_isotp
              ∙ ap (λ m. m >>= λ layer. some (ok, record { raw = raw; layer = layer })) e,
        )
        | inr (pre, pcb, post, split, at, id, others, e) ↦ inr (
          pre,
          pcb,
          post,
          split,
          at,
          id,
          others,
          if_true _ _ _ with_isotp
              ∙ (ap (λ m. m >>= λ layer. some (ok, record { raw = raw; layer = layer })) e
                  ∙ behind (dispatch p o frame (focused pcb layer)) (put_back pre post layer)
                      (λ layer. (ok, record { raw = raw; layer = layer }))),
        )
      ]

  -- Where both parts are built in, a frame of an interface goes first to the first raw connection
  -- of that interface: if its callback returns another value than 0, canif_input returns ok, that
  -- connection moves to the front, and the ISO-TP connections and the timeouts are as the callback
  -- leaves them; if there is no such connection, it has no callback, or its callback returns 0,
  -- the raw connections are as they were, and with what the callback has left, the frame goes to
  -- the first ISO-TP connection with the interface and the frame's identifier, which is put back
  -- to its place once it has dispatched the frame, or nothing more changes where there is none.
  pub canif_input-IsRouted :
      (iface : Canif) (frame : Frame) (s : Stack Ext)
      → so.with_raw ≡ true
      → so.with_isotp ≡ true
      → ((pre : List CanrawPcb) × (pcb : CanrawPcb) × (next : List CanrawPcb) × (fn : ℕ)
          × (s.raw.list ≡ pre ++ (pcb ∷ next))
          × (pcb.if_index ≡ get_index (some iface))
          × All (λ u. u.if_index ≢ get_index (some iface)) pre
          × (pcb.receive ≡ some fn)
          × ((receive fn pcb.callback_arg pcb frame s.layer).0 ≢ 0)
          × (canif_input so p o receive (some iface) (some frame) s
              ≡ some (
                ok,
                record {
                  raw = record (s.raw) { list = pcb ∷ (pre ++ next) };
                  layer = (receive fn pcb.callback_arg pcb frame s.layer).1;
                },
              )))
        ⊎ ((layer : Layer Ext) × IsLeft iface frame s.raw.list s.layer layer
            × IsRouted iface frame s.raw layer
                (canif_input so p o receive (some iface) (some frame) s))
  unfolding canif_input
  canif_input-IsRouted iface frame s with_raw with_isotp =
      elim (canraw_input_lem receive iface frame s.raw s.layer) [
        | inl (others, r) ↦ inr (s.layer, inl (others, refl), routed s.layer r)
        | inr (pre, pcb, next, split, at, others, inl (quiet, r)) ↦
            inr (
              s.layer,
              inr (pre, pcb, next, split, at, others, inl (quiet, refl)),
              routed s.layer r,
            )
        | inr (pre, pcb, next, split, at, others, inr (fn, set, inl (zero, r))) ↦
            let left = (receive fn pcb.callback_arg pcb frame s.layer).1 in
            inr (
              left,
              inr (pre, pcb, next, split, at, others, inr (fn, set, ap (λ n. (n, left)) zero)),
              routed left r,
            )
        | inr (pre, pcb, next, split, at, others, inr (fn, set, inr (taken, r))) ↦ inl (
          pre,
          pcb,
          next,
          fn,
          split,
          at,
          others,
          set,
          taken,
          ap (input_behind_raw so p o receive iface frame) (offered ∙ r),
        )
      ]
    where
      offered :
          (if so.with_raw
            then canraw_input receive iface frame s.raw s.layer
            else (unmatched, s.raw, s.layer))
          ≡ canraw_input receive iface frame s.raw s.layer
      offered = if_true _ _ _ with_raw

      routed :
          (layer : Layer Ext)
          → canraw_input receive iface frame s.raw s.layer ≡ (unmatched, s.raw, layer)
          → IsRouted iface frame s.raw layer
              (canif_input so p o receive (some iface) (some frame) s)
      routed layer r =
          subst (IsRouted iface frame s.raw layer)
            (sym (ap (input_behind_raw so p o receive iface frame) (offered ∙ r)))
            (behind_raw-IsRouted iface frame s.raw layer with_isotp)
