-- ===== src/Net/Route.antt =====
-- daemon/network.c: `Net_set_membership`, which finds from a membership to whom a daemon sends its
-- packets, and to whom it passes the token.
pub mod Ring
pub mod Next
use in5020_assignment.Prelude.{
  ℕ, zero, suc, ◌+◌, ◌-◌, Bool, true, false, ◌==◌, ltb, if◌then◌else◌, Option, none, some, List, [],
  ◌∷◌, length, get_elem?, Faultable, ok, exit,
}
use in5020_assignment.Conf.{Proc, Segment, Configuration, id_in_seg}
use in5020_assignment.Net.{Net, Address}

-- `Segment_leader`, and `Token_address` with `Token_port`
pub record Route : Type 0 where
  pub segment_leader : Bool
  pub token_to : Address

-- The address of a segment's first daemon put to those that follow, if it has one.
unfoldable pub put_first : ℕ → List Proc → List Address → List Address
put_first port [] rest = rest
put_first port (p ∷ ps) rest = (p.id, port) ∷ rest

-- The loop that fills `Send_address` and `Send_ports`, over the segments from index `i` on, past the
-- daemon's own. A membership has as many segments as `Cn`.
unfoldable pub send_list : ℕ → ℕ → List Segment → List Address
send_list mine i [] = []
send_list mine i (c ∷ cs) =
    let rest = send_list mine (i + 1) cs in
    if i == mine then rest else put_first c.port c.procs rest

unfoldable pub count_first : List Proc → ℕ → ℕ
count_first [] count = count
count_first (p ∷ ps) count = count + 1

-- `my_next_index`: how many addresses there are when the loop meets the daemon's own segment;
-- `none` is the -1 that the assertion excludes.
unfoldable pub next_index : ℕ → ℕ → ℕ → List Segment → Option ℕ
next_index mine i count [] = none
next_index mine i count (c ∷ cs) =
    let rest = next_index mine (i + 1) (count_first c.procs count) cs in
    if i == mine then some count else rest

-- the address of the token channel of an address
abbrev pub token_port : Address → Address
token_port a = (a.0, a.1 + 1)

-- The read of an address below the count of them.
abbrev pub address_at : List Address → ℕ → Faultable Address
address_at as' i = elim (get_elem? as' i) [ some a ↦ ok (token_port a) | none ↦ exit ]

abbrev pub proc_at : Segment → ℕ → Faultable Address
proc_at c j = elim (get_elem? c.procs j) [ some p ↦ ok (p.id, c.port + 1) | none ↦ exit ]

-- Where to send the token, from place `j` of the segment `c`.
unfoldable pub token_address : Segment → ℕ → List Address → ℕ → Faultable Address
token_address c j sends next =
    if ltb j (length c.procs - 1)
    then proc_at c (j + 1)
    else if length sends == 0
    then proc_at c 0
    else if length sends == next
    then address_at sends 0
    else address_at sends next

-- `Net_set_membership`
unfoldable pub set_membership : Proc → Configuration → Net → Faultable (Net × Route)
set_membership my memb n =
    let sends = send_list my.seg_index 0 memb.segments in
    let n1 = record n { membership = memb; send_to = sends } in
    elim (get_elem? memb.segments my.seg_index) [
      | some c ↦ elim (id_in_seg c my.id) [
        | some j ↦ elim (next_index my.seg_index 0 0 memb.segments) [
          | some next ↦ elim (token_address c j sends next) [
            | ok a ↦ ok (n1, record { segment_leader = j == 0; token_to = a })
            | exit ↦ exit
          ]
          | none ↦ exit
        ]
        | none ↦ exit
      ]
      | none ↦ exit
    ]
