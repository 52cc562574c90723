-- ===== src/Events/Clock.antt =====
-- `E_sub_time`, `E_add_time` and `E_compare_time` of daemon/events.c.
use in5020_assignment.Prelude.{
  ◌+◌, ◌<◌, ◌≡◌, ◌≢◌, if◌then◌else◌, arith, ℤ, pos, pos_part, neg_part, ◌+ℤ◌, ◌-ℤ◌, ltb_ℤ, -ℤ_parts,
  +ℤ_parts, eq_of_parts, ◌↔◌,
}

-- `sp_time`
pub record SpTime : Type 0 where
  pub sec : ℤ
  pub usec : ℤ

abbrev pub million : ℤ
million = pos 1000000

unfoldable pub sub_time : SpTime → SpTime → SpTime
sub_time t delta_t =
    let sec = t.sec -ℤ delta_t.sec in
    let usec = t.usec -ℤ delta_t.usec in
    if ltb_ℤ usec (pos 0)
    then record { sec = sec -ℤ pos 1; usec = usec +ℤ million }
    else record { sec = sec; usec = usec }

unfoldable pub add_time : SpTime → SpTime → SpTime
add_time t delta_t =
    let sec = t.sec +ℤ delta_t.sec in
    let usec = t.usec +ℤ delta_t.usec in
    if ltb_ℤ million usec
    then record { sec = sec +ℤ pos 1; usec = usec -ℤ million }
    else record { sec = sec; usec = usec }

-- the three results 1, 0 and -1
pub data Comparison : Type 0 where
  after same before : Comparison

unfoldable pub compare_time : SpTime → SpTime → Comparison
compare_time t1 t2 =
    if ltb_ℤ t2.sec t1.sec
    then after
    else if ltb_ℤ t1.sec t2.sec
    then before
    else if ltb_ℤ t2.usec t1.usec
    then after
    else if ltb_ℤ t1.usec t2.usec
    then before
    else same

-- The microseconds are a fraction of a second.
pub record IsNormal (t : SpTime) : Type 0 where
  pub nonneg : neg_part t.usec ≡ 0
  pub below : pos_part t.usec < 1000000

-- Subtracting one normal time from another gives a normal time.
pub sub_time-IsNormal :
    (t delta_t : SpTime) → IsNormal t → IsNormal delta_t → IsNormal (sub_time t delta_t)
unfolding sub_time
sub_time-IsNormal t d n m =
    ground (arith, -ℤ_parts t.usec d.usec, +ℤ_parts (t.usec -ℤ d.usec) million)

-- Adding two normal times gives a normal time if and only if the microseconds do not sum to one
-- million exactly: that sum is left as it is.
pub add_time-IsNormal :
    (t delta_t : SpTime)
    → IsNormal t
    → IsNormal delta_t
    → IsNormal (add_time t delta_t) ↔ (pos_part t.usec + pos_part delta_t.usec ≢ 1000000)
unfolding add_time
add_time-IsNormal t d n m = (
  λ v e. ground (arith, v, +ℤ_parts t.usec d.usec, -ℤ_parts (t.usec +ℤ d.usec) million),
  λ e. ground (arith, +ℤ_parts t.usec d.usec, -ℤ_parts (t.usec +ℤ d.usec) million),
)

-- Comparing the other way round gives the opposite result, and two times compare as the same only
-- if they are equal.
pub compare_time_swap :
    (t1 t2 : SpTime)
    → ((compare_time t1 t2 ≡ before) ↔ (compare_time t2 t1 ≡ after))
      × (compare_time t1 t2 ≡ same → (t1.sec ≡ t2.sec) × (t1.usec ≡ t2.usec))
unfolding compare_time
compare_time_swap t1 t2 = (
  (λ e. ground arith, λ e. ground arith),
  λ e. (eq_of_parts t1.sec t2.sec (ground arith), eq_of_parts t1.usec t2.usec (ground arith)),
)

-- `t1` is not after `t2`, in the order that the queue is kept in
abbrev pub NotAfter : SpTime → SpTime → Type 0
NotAfter t1 t2 = compare_time t2 t1 ≢ before

pub NotAfter-trans : (t1 t2 t3 : SpTime) → NotAfter t1 t2 → NotAfter t2 t3 → NotAfter t1 t3
unfolding compare_time
NotAfter-trans t1 t2 t3 h k = ground arith

pub NotAfter-of_before : (t1 t2 : SpTime) → compare_time t1 t2 ≡ before → NotAfter t1 t2
unfolding compare_time
NotAfter-of_before t1 t2 h = ground arith
