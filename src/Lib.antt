-- ===== src/Lib.antt =====
-- A verification library for the train control programs of projet-commun-unirail: the RBC (radio
-- block centre), the EVC (on-board computer of a train) and the code that they share, under app/, and
-- for the CAN library of the bench program under TestCanLinux/.
--
-- The RBC keeps the positions of three trains and six track resources (a byte of bits). A train
-- reports its position (request 101), which may free resources, and asks for an end of authority
-- (request 102), which may lock the next resource, order the switches of the section over the CAN
-- bus, and computes how far the train may run.
--
-- Files and the code that they model:
-- - Prelude and its children: lists, options, integers over the native numbers, bits of masks.
-- - Float: the C types float and double, as an interface of the operations that the code uses, with
--   the order laws of IEEE comparisons (NaN included) as a record; an instance over exact tenths
--   runs the tests. No rounding law is assumed.
-- - Track: app/utility/src/map.c. Tables has the arrays, Distance has get_distance, Route and Total
--   prove it. A read outside an array is none. The loop takes as much fuel as the route has balises
--   and one more, which Total shows to be enough.
-- - Eoa: app/RBC/src/eoa_calculator.c. Calculator has next_eoa (the second definition there stands
--   in a comment); its loop has as much fuel as the route has balises, which Search shows to be
--   enough.
-- - Can: app/utility/src/can.c and app/utility/src/can_infra.c. Frames has send_can_data over a bus
--   whose faults are a parameter, Switches has the tables and set_all_switch.
-- - Resources: app/RBC/src/ressources.c, app/RBC/src/trains.c, app/utility/src/const_chemins.c.
--   Masks has the lock and unlock, whose waiting loop is a result; Requests has ask_resources and
--   free_resources; System is a relation for any sequence of requests and reports, with the masks
--   that each train holds kept beside the state of the program. The code frees a mask without a test
--   of its holder, and so does System; AllOwn is the condition that each release is by a holder.
-- - Comm: app/utility/src/comm.c and app/utility/src/comm_message_listener.c. Numbers and Tenths
--   have the C calls on texts, Messages has send_data, receive_data and copy_message over lists of
--   bytes, Listener has the waiting list of message_listener and wait_for_response with a relation
--   for any order of the threads; Decimal, Tokens, RoundTrip, Routing and Delivery prove them.
-- - Rbc: app/RBC/src/requests_handler.c. Handler has handle_request, with the answer or the mask
--   that its thread waits for; Outcomes, Moves and Replies, Cells, Sound and Answers, and
--   Refinement prove it. Server has the loop of app/RBC/src/main.c and handle_and_respond. Numbers
--   of trains are integers without bounds, so train_id - 1 has no overflow at INT_MIN.
-- - Evc: app/EVC/src/requests_handler.c in Missions, with one round of
--   app/MissionSupervisor/src/main.c; Wiring has the objects that app/EVC/src/main.c shares between
--   its threads. Supervisor has what becomes of one mission, Dialogue the whole loop of the
--   supervisor and the answer to a mission. Connection has the first dialogue with the RBC, Launch
--   the main of app/EVC/src/main.c around it and its stop_train, Reports the way of a position to
--   the RBC and Authorities the way of an end of authority to the train. Speed has the functions of
--   app/EVC/src/automatique.c, Loop its loop, round by round; Drive, Tours and Bytes prove them.
--   Thresholds has the rounds of app/EVC/src/eoa_handler.c, with Requests; Position has the reports
--   of app/EVC/src/position.c; Flags and Startup have the order in which these threads let each
--   other go, Standstill their start by main, History what stands behind each flag on the way. Here
--   float and double are two types, with the conversions of the code between them and int.
-- - Bench: TestCanLinux/CAN, the CAN library that the bench program is built with. Message has the
--   types of MESCAN1_DefinitionVariable.h, Fields and Copies the functions of MESCAN1_Utilitaire.c
--   on bits, bytes, words and floats, Fifo its queue, Slices its long messages; Bits, Words, Calls,
--   Fifo.Refine and the children of Slices prove them. A message is its identifier, types and
--   length and the list of its 9 bytes from data0 on. Driver has canLinux.c, its sender as one step
--   under the lock, Reception the frames that are read; the tests show the two places where a long
--   message breaks. Line, Order, Transmit, Close, Wire and Timeout prove them. The loop of
--   canLinux_close takes as much fuel as frames wait and one more, the one of canLinux_receive as
--   many rounds as the clock leaves before the time-out and one more, which Close and Timeout show
--   to be enough. The copy of this library among the annexes of the subject, under doc/, is not
--   modelled.
-- Not modelled: the threads of TestCanLinux/main.c, sockets and their filters, threads and their
-- creation, signals, waiting times and debug output. The mutexes are modelled by the atomic steps that
-- they make of the code between them.
pub mod Prelude
pub mod Float
pub mod Track
pub mod Eoa
pub mod Can
pub mod Resources
pub mod Comm
pub mod Rbc
pub mod Evc
pub mod Bench
