-- ===== src/Proto/Backoff.antt =====
-- daemon/membership.c: `Backoff_membership`, which takes the window back when a membership that was
-- being formed is given up.
use in5020_assignment.Prelude.{
  ℕ, zero, suc, ◌+◌, ◌-◌, ◌≤◌, ◌≡◌, ◌≢◌, refl, ◌==◌, if◌then◌else◌, Bool-cases, inl, inr, arith,
  update_ne, ap, ◌∙◌, sym, ==_iff, subst,
}
use in5020_assignment.Proto.{Proto, Slot, entry, slot_at, set_exist}

-- The loop that clears the dummies, over `n` packets from `i` on.
unfoldable pub clear_dummies : ℕ → ℕ → Proto → Proto
clear_dummies zero i s = s
clear_dummies (suc n) i s =
    clear_dummies n (i + 1) (if (slot_at s i).exist == 3 then set_exist (entry i) 0 s else s)

-- The loop that counts `My_aru` up, of `n` rounds at most: it tests the same cell on each.
unfoldable pub count_up : ℕ → ℕ → Proto → Proto
count_up zero pack_entry s = s
count_up (suc n) pack_entry s =
    let rest = count_up n pack_entry (record s { my_aru = s.my_aru + 1 }) in
    if (s.packets pack_entry).exist == 0 then s else rest

-- `Backoff_membership`; the first loop leaves `pack_entry` at the cell of `Highest_seq`.
unfoldable pub backoff_membership : Proto → Proto
backoff_membership s =
    let n = s.highest_seq - s.last_discarded in
    let s1 = clear_dummies n (s.last_discarded + 1) s in
    count_up n (entry s.highest_seq)
      (record s1 { aru = s1.last_discarded; my_aru = s1.last_discarded })

-- Clearing leaves a cell that holds no dummy, and all counters.
clear_dummies-rest :
    (n i k : ℕ) (s : Proto)
    → (s.packets k).exist ≢ 3
    → let t = clear_dummies n i s in
      ((t.packets k).exist ≡ (s.packets k).exist) × (t.last_discarded ≡ s.last_discarded)
unfolding clear_dummies
clear_dummies-rest zero i k s h = (refl, refl)
clear_dummies-rest (suc n) i k s h = elim (Bool-cases ((slot_at s i).exist == 3)) [
  | inl dummy ↦
      let other : k ≢ entry i =
        λ e. h (subst (λ m. (s.packets m).exist ≡ 3) (sym e) ((==_iff _ _).0 dummy)) in
      let same = ap (λ (c : Slot). c.exist) (update_ne s.packets (entry i) k _ other) in
      let r = clear_dummies-rest n (i + 1) k (set_exist (entry i) 0 s) (λ z. h (sym same ∙ z)) in
      rw (clear_dummies, dummy) (r.0 ∙ same, r.1)
  | inr real ↦ rw (clear_dummies, real) (clear_dummies-rest n (i + 1) k s h)
]

count_up-my_aru :
    (n k : ℕ) (s : Proto)
    → ((count_up n k s).my_aru ≡ (if (s.packets k).exist == 0 then s.my_aru else s.my_aru + n))
      × ((count_up n k s).aru ≡ s.aru)
unfolding count_up
count_up-my_aru zero k s = (ground arith, refl)
count_up-my_aru (suc n) k s = elim (Bool-cases ((s.packets k).exist == 0)) [
  | inl gone ↦ rw gone (refl, refl)
  | inr there ↦
      let r = count_up-my_aru n k (record s { my_aru = s.my_aru + 1 }) in
      rw there (omega (arith, rw there at r.0), r.1)
]

-- `Backoff_membership` takes `Aru` back to `Last_discarded`. `My_aru` it takes, if `Last_discarded`
-- is not past `Highest_seq` and the packet of `Highest_seq` is no dummy, to one of two ends,
-- whatever is missing in between: to `Last_discarded` if that packet is missing, and else to
-- `Highest_seq` itself.
pub backoff_membership-my_aru :
    (s : Proto)
    → s.last_discarded ≤ s.highest_seq
    → (slot_at s s.highest_seq).exist ≢ 3
    → ((backoff_membership s).my_aru
        ≡ (if (slot_at s s.highest_seq).exist == 0 then s.last_discarded else s.highest_seq))
      × ((backoff_membership s).aru ≡ s.last_discarded)
unfolding backoff_membership
backoff_membership-my_aru s low real =
    let n = s.highest_seq - s.last_discarded in
    let k = entry s.highest_seq in
    let (cell, ld) = clear_dummies-rest n (s.last_discarded + 1) k s real in
    let s1 = clear_dummies n (s.last_discarded + 1) s in
    let (m, a) =
      count_up-my_aru n k (record s1 { aru = s1.last_discarded; my_aru = s1.last_discarded }) in
    (m ∙ ends s1.last_discarded (s1.packets k).exist cell ld, a ∙ ld)
  where
    ends :
        (l e : ℕ)
        → e ≡ (slot_at s s.highest_seq).exist
        → l ≡ s.last_discarded
        → (if e == 0 then l else l + (s.highest_seq - s.last_discarded))
          ≡ (if (slot_at s s.highest_seq).exist == 0 then s.last_discarded else s.highest_seq)
    ends l e p q = ground (arith, p, q, low)

-- What the loops leave besides: all but the window.
pub record Around (s t : Proto) : Type 0 where
  pub my : t.my ≡ s.my
  pub procs : t.procs ≡ s.procs
  pub cn : t.cn ≡ s.cn
  pub memb : t.memb ≡ s.memb

clear_dummies-Around : (n i : ℕ) (s : Proto) → Around s (clear_dummies n i s)
unfolding clear_dummies
clear_dummies-Around zero i s = record { my = refl; procs = refl; cn = refl; memb = refl }
clear_dummies-Around (suc n) i s = elim (Bool-cases ((slot_at s i).exist == 3)) [
  | inl dummy ↦
      let a = clear_dummies-Around n (i + 1) (set_exist (entry i) 0 s) in
      rw (clear_dummies, dummy) record { my = a.my; procs = a.procs; cn = a.cn; memb = a.memb }
  | inr real ↦ rw (clear_dummies, real) (clear_dummies-Around n (i + 1) s)
]

count_up-Around : (n k : ℕ) (s : Proto) → Around s (count_up n k s)
unfolding count_up
count_up-Around zero k s = record { my = refl; procs = refl; cn = refl; memb = refl }
count_up-Around (suc n) k s = elim (Bool-cases ((s.packets k).exist == 0)) [
  | inl gone ↦ rw (count_up, gone) record { my = refl; procs = refl; cn = refl; memb = refl }
  | inr there ↦
      let a = count_up-Around n k (record s { my_aru = s.my_aru + 1 }) in
      rw (count_up, there) record { my = a.my; procs = a.procs; cn = a.cn; memb = a.memb }
]

pub backoff_membership-Around : (s : Proto) → Around s (backoff_membership s)
unfolding backoff_membership
backoff_membership-Around s =
    let n = s.highest_seq - s.last_discarded in
    let a = clear_dummies-Around n (s.last_discarded + 1) s in
    let s1 = clear_dummies n (s.last_discarded + 1) s in
    let b =
      count_up-Around n (entry s.highest_seq)
        (record s1 { aru = s1.last_discarded; my_aru = s1.last_discarded }) in
    record { my = b.my ∙ a.my; procs = b.procs ∙ a.procs; cn = b.cn ∙ a.cn; memb = b.memb ∙ a.memb }
