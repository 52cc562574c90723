-- ===== src/Events/Timers.antt =====
-- The queue of timed events: `E_queue` and `E_dequeue` of daemon/events.c.
pub mod Order
pub mod Keys
use in5020_assignment.Prelude.{ℕ, Bool, true, false, ◌&&◌, ◌==◌, if◌then◌else◌, List, [], ◌∷◌}
use in5020_assignment.Events.Clock.{SpTime, add_time, compare_time, Comparison, before, after, same}

-- `time_event`; a handler and its data pointer are known by their addresses.
pub record TimeEvent : Type 0 where
  pub t : SpTime
  pub func : ℕ
  pub code : ℕ
  pub arg : ℕ

-- the test for an event with the same handler, data and code
unfoldable pub same_call : ℕ → ℕ → ℕ → TimeEvent → Bool
same_call func code arg e = e.func == func && (e.arg == arg && e.code == code)

abbrev pub similar : TimeEvent → TimeEvent → Bool
similar e p = same_call e.func e.code e.arg p

abbrev pub is_before : Comparison → Bool
is_before before = true
is_before _ = false

-- The `while` loop of `E_queue` over what follows `t_pre`, with its flags, and the append after it.
unfoldable pub place : TimeEvent → Bool → Bool → List TimeEvent → List TimeEvent
place e inserted deleted [] = if inserted then [] else e ∷ []
place e inserted deleted (p ∷ ps) =
    let dropped = place e inserted true ps in
    let put = e ∷ p ∷ place e true deleted ps in
    let kept = p ∷ place e inserted deleted ps in
    if inserted && deleted
    then p ∷ ps
    else if similar e p
    then dropped
    else if inserted
    then kept
    else if is_before (compare_time e.t p.t)
    then put
    else kept

-- `E_queue` after its test of the first event
unfoldable pub link_rest : TimeEvent → Bool → List TimeEvent → List TimeEvent
link_rest e deleted [] = e ∷ []
link_rest e deleted (h ∷ r) =
    if is_before (compare_time e.t h.t)
    then e ∷ place e true deleted (h ∷ r)
    else h ∷ place e false deleted r

unfoldable pub link : TimeEvent → List TimeEvent → List TimeEvent
link e [] = link_rest e false []
link e (h ∷ r) = if similar e h then link_rest e true r else link_rest e false (h ∷ r)

-- `E_queue`, at the time that `E_get_time` returns
unfoldable pub queue : SpTime → ℕ → ℕ → ℕ → SpTime → List TimeEvent → List TimeEvent
queue now func code arg delta_time q =
    link (record { t = add_time now delta_time; func = func; code = code; arg = arg }) q

-- `E_dequeue`; the flag is the return of 0.
unfoldable pub dequeue : ℕ → ℕ → ℕ → List TimeEvent → List TimeEvent × Bool
dequeue func code arg [] = ([], false)
dequeue func code arg (h ∷ r) =
    let rest = dequeue func code arg r in
    if same_call func code arg h then (r, true) else (h ∷ rest.0, rest.1)
