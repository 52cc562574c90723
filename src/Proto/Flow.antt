-- ===== src/Proto/Flow.antt =====
-- daemon/flow_control.c: how many new packets a daemon may send on one visit of the token.
use in5020_assignment.Prelude.{
  ℕ, ◌+◌, ◌*◌, ◌≡◌, ◌⊎◌, inl, inr, Bool-cases, ℤ, pos, negsuc, ◌+ℤ◌, ◌-ℤ◌, ◌≤ℤ◌, ltb_ℤ, eqb_ℤ, Bool,
  true, false, ltb, ◌==◌, ◌&&◌, not, if◌then◌else◌, List, get_or, Option, none, some, arith,
  +ℤ_parts, -ℤ_parts, refl,
}
use in5020_assignment.Wire.{value16, flip_int16, same_endian}
use in5020_assignment.Conf.{id_in_conf, num_procs, proc_by_id}
use in5020_assignment.Net.{Packet}
use in5020_assignment.Proto.{Proto, max_seq_gap, in_evs}

-- `FC_init`
unfoldable pub fc_init : Proto → Proto
fc_init s = record s { window = pos 60; personal_window = pos 15 }

-- `FC_new_configuration`
unfoldable pub fc_new_configuration : Proto → Proto
fc_new_configuration s = record s { last_num_retrans = 0; last_num_sent = 0 }

abbrev pub cap_ℤ : ℤ → ℤ → ℤ
cap_ℤ a b = if ltb_ℤ b a then b else a

-- `FC_allowed`; its argument `num_retrans` is not used.
unfoldable pub fc_allowed : ℤ → Proto → ℤ
fc_allowed flow_control s =
    if in_evs s
    then pos 0
    else if ltb (s.aru + max_seq_gap) s.highest_seq
    then pos 0
    else (let allowed = s.window +ℤ s.personal_window -ℤ flow_control in
        let nonneg = if ltb_ℤ allowed (pos 0) then pos 0 else allowed in
        cap_ℤ (cap_ℤ nonneg s.window) s.personal_window)

abbrev pub is_some {ℓ} : {A : Type ℓ} → Option A → Bool
is_some none = false
is_some (some a) = true

-- the `int16` at index `i` of a packet's body
abbrev pub int16_at : List ℕ → ℕ → ℕ
int16_at body i = get_or body (2 * i) 0 + get_or body (2 * i + 1) 0 * 256

-- the value at index `i`, in this machine's byte order
abbrev pub window_at : Packet → ℕ → ℤ
window_at p i =
    if same_endian p.head.type
    then value16 (int16_at p.body i)
    else value16 (flip_int16 (int16_at p.body i))

-- -1 asks for no change
abbrev pub changed : ℤ → ℤ → ℤ
changed old new = if eqb_ℤ new (negsuc 0) then old else new

-- the proc_id by which a monitor marks its packets
abbrev pub monitor_id : ℕ
monitor_id = 15051963

-- `FC_handle_message`
unfoldable pub fc_handle_message : Packet → Proto → Proto
fc_handle_message p s =
    if not s.dangerous_monitor
    then s
    else if not (p.head.memb_id.proc_id == monitor_id && is_some (id_in_conf s.cn p.head.proc_id))
    then s
    else (elim (proc_by_id s.procs s.my.id) [
      | none ↦ s
      | some (my_index, q) ↦ record s {
        window = changed s.window (window_at p (num_procs s.cn));
        personal_window = changed s.personal_window (window_at p my_index);
      }
    ])

abbrev clamp : ℤ → ℤ → ℤ → ℤ
clamp allowed window personal =
    cap_ℤ (cap_ℤ (if ltb_ℤ allowed (pos 0) then pos 0 else allowed) window) personal

clamp_cases :
    (a w p : ℤ)
    → pos 0 ≤ℤ w
    → pos 0 ≤ℤ p
    → (pos 0 ≤ℤ clamp a w p)
      × (clamp a w p ≤ℤ w)
      × (clamp a w p ≤ℤ p)
      × ((clamp a w p ≡ pos 0) ⊎ (clamp a w p ≤ℤ a))
clamp_cases a w p hw hp = ground arith

clamp_bounds :
    (w p fc : ℤ)
    → pos 0 ≤ℤ w
    → pos 0 ≤ℤ p
    → let c = clamp (w +ℤ p -ℤ fc) w p in
      (pos 0 ≤ℤ c) × (c ≤ℤ w) × (c ≤ℤ p) × ((c ≡ pos 0) ⊎ (c +ℤ fc ≤ℤ w +ℤ p))
clamp_bounds w p fc hw hp =
    let (a, b, c, d) = clamp_cases (w +ℤ p -ℤ fc) w p hw hp in (a, b, c, weaken d)
  where
    weaken :
        (clamp (w +ℤ p -ℤ fc) w p ≡ pos 0) ⊎ (clamp (w +ℤ p -ℤ fc) w p ≤ℤ (w +ℤ p -ℤ fc))
        → (clamp (w +ℤ p -ℤ fc) w p ≡ pos 0) ⊎ (clamp (w +ℤ p -ℤ fc) w p +ℤ fc ≤ℤ w +ℤ p)
    weaken (inl e) = inl e
    weaken (inr h) =
        inr (omega (arith, h, +ℤ_parts (clamp (w +ℤ p -ℤ fc) w p) fc, -ℤ_parts (w +ℤ p) fc))

-- If the windows are not negative, `FC_allowed` is not negative either, it exceeds neither window,
-- and it is 0 or, with the flow control of the token, at most both windows together.
pub fc_allowed_bounds :
    (fc : ℤ) (s : Proto)
    → pos 0 ≤ℤ s.window
    → pos 0 ≤ℤ s.personal_window
    → (pos 0 ≤ℤ fc_allowed fc s)
      × (fc_allowed fc s ≤ℤ s.window)
      × (fc_allowed fc s ≤ℤ s.personal_window)
      × ((fc_allowed fc s ≡ pos 0) ⊎ (fc_allowed fc s +ℤ fc ≤ℤ s.window +ℤ s.personal_window))
unfolding fc_allowed
fc_allowed_bounds fc s w p = elim (Bool-cases (in_evs s)) [
  | inl e ↦ rw e (omega arith, w, p, inl refl)
  | inr e ↦ elim (Bool-cases (ltb (s.aru + max_seq_gap) s.highest_seq)) [
    | inl g ↦ rw (e, g) (omega arith, w, p, inl refl)
    | inr g ↦ rw (e, g) (clamp_bounds s.window s.personal_window fc w p)
  ]
]
