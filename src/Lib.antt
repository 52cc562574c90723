-- ===== src/Lib.antt =====
-- A model of the daemon of the Spread toolkit, spread-src-4.0.0/daemon: the protocol by which the
-- daemons of a ring order, retransmit, deliver and discard the packets of their clients, and the parts
-- that it stands on.
--
-- The parts and their files:
--
-- - Wire: the type words, headers and byte swaps of daemon/net_types.h, daemon/arch.h and
--   daemon/network.c (`Flip_pack`, `Flip_token`). Type words and counters are 32-bit patterns; the
--   machine is little-endian.
-- - Conf: the static configuration and the queries on it, of daemon/configuration.c
--   (`Conf_proc_by_id`, `Conf_leader`, `Conf_append_id_to_seg` and others).
-- - Events: time arithmetic, the queue of timed events and the tables of file descriptors, of
--   daemon/events.c (`E_sub_time`, `E_add_time`, `E_compare_time`, `E_queue`, `E_dequeue`,
--   `E_attach_fd`, `E_detach_fd`, `E_deactivate_fd`, `E_activate_fd`, `E_set_active_threshold`).
-- - Net: packing packets into datagrams and sending them, of daemon/network.c (`Net_bcast`,
--   `Net_queue_bcast`, `Net_flush_bcast`, `Net_scast`, `Net_ucast`, `Net_send_token`). The results of
--   `DL_send` are inputs. Net.Route is `Net_set_membership`, and Net.Route.Ring the ring it stands for.
-- - Memb: the state of daemon/membership.c that the protocol reads, and `Memb_commit`,
--   `Memb_transitional` and `Memb_regular`.
-- - Proto: the state of daemon/protocol.c and daemon/flow_control.c as one record. Its children are
--   Flow (`FC_allowed`, `FC_handle_message`), Receive (`Prot_handle_bcast`), Send
--   (`Send_new_packets`), Retrans (`Answer_retrans`), Token (`Prot_handle_token`), Deliver
--   (`Deliver_packet`, `Deliver_agreed_packets`, `Deliver_reliable_packets`), Discard
--   (`Discard_packets`), Down (`Prot_new_message`), Hurry (`Prot_token_hurry`, `Handle_hurry`), Backoff
--   (`Backoff_membership` of daemon/membership.c), and Steps, which puts the handlers together as the
--   steps of a daemon.
-- - Formation: the membership algorithm of daemon/membership.c, over the state of Proto. Members and
--   Reps are the sets it collects (`Insert_member`, `Sort_members`, `Insert_rep`, `Smallest_rep` and
--   others), Moves its moves between the states (`Shift_to_seg`, `Shift_to_gather`,
--   `Memb_token_loss`, `Send_join` and others), Create (`Form_or_fail`, `Create_form1`), Fill
--   (`Fill_form1`) and Read (`Read_form2`) the form tokens, Handlers what is done with a packet or a
--   token in each state, and Steps the whole from `Memb_init` on, as a relation. Sound has what is
--   queued in which state, Loss when `Memb_token_loss` returns.
-- - Groups: the groups of daemon/groups.c. Names has the private names (`G_private_to_names`), Sets the
--   ordered lists and what is taken out of them, Join `G_handle_join`, Leave `G_handle_leave` and
--   `G_handle_kill`. Elements, Counts and Departures have the lemmas on the counters, Runs the states
--   that the three lead to. Synced is the synced set (`G_add_to_synced_set`) and what a membership
--   does to the daemons of a group. The calls that send memberships to sessions are put in `notices`.
-- - Examples: concrete states on which the definitions are run.
-- - Prelude: Booleans, lists, integers and faults that the parts share.
--
-- A handler takes the state to the next one. What it asks of another component (a message delivered to
-- the sessions, a timer) is put at the head of the list `effects`,
-- in the order of the calls; what it sends is put at the head of the network's `sent`. `Alarm( EXIT )`
-- is the fault `exit`. The array `Packets` is a function of the cell, and a packet of number `i` has
-- cell `i % 8192`. `Memb_handle_message` and `Memb_handle_token`, with which a handler of the protocol
-- ends, are an argument of it, and change its state as they do.
--
-- The header fields that the network writes at a send (the byte order, ROUTED_TYPE, the configuration's
-- hash and the transmitter) are on what is sent, and after `Send_new_packets` and `Answer_retrans` in
-- the stored packet, there without ROUTED_TYPE where the code clears it again; a token that is kept as
-- the last one is without them. `size_t` has 64 bits.
--
-- Loops over a range of sequence numbers are structural recursion on the length of the range, so they
-- need no fuel. The `while` loop of `Send_new_packets` runs on fuel: the number of fragments that wait,
-- and one more.
--
-- Sequence numbers are natural numbers: an `int32` that overflows is not modelled. Memory is not
-- modelled, so the disposal of packets leaves no trace, nor the counters of GlobalStatus. A datagram is
-- given to the model as its packets, and a token, like a join packet, in this machine's byte order. In
-- Formation a timed call is queued or not, with its delay; the clock does not run, and a call that is
-- queued may fall due at any time, so the order of the queue plays no part. What the protocol does
-- between the steps is any change that keeps the state and the life of the token, and a new time for
-- the loss of the token only while it is alive. `Prot_handle_conf_reload`, which queues that loss in
-- any state, is not among the steps. Where the code reads a cell that was never set (the first member
-- of an empty set, the `proc` of an unknown daemon) the model has a fault. Not modelled are the event
-- loop, the groups' handlers of memberships, the check of `Net_send_token` that a token fits a packet,
-- the sessions, the client library, the sockets and the parser of the configuration.
pub mod Prelude
pub mod Wire
pub mod Conf
pub mod Events
pub mod Net
pub mod Memb
pub mod Proto
pub mod Formation
pub mod Groups
pub mod Examples
