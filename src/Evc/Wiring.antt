-- ===== src/Evc/Wiring.antt =====
-- app/EVC/src/main.c, how it connects the listener and the handler of requests, with `requests_handler`
-- of app/EVC/src/requests_handler.c and the count of tours of app/EVC/src/automatique.c.
use projet_commun_unirail.Prelude.{◌≡◌, refl, true, false, none, some, [], arith}
use projet_commun_unirail.Prelude.Int.{ℤ, pos, ◌-ℤ◌, ◌≤ℤ◌, -ℤ_parts}
use projet_commun_unirail.Comm.{Message, PendingRequest, Mailbox, Step}
use projet_commun_unirail.Evc.Missions.{handle_request}

-- The zero message of the initialiser.
abbrev pub no_message : Message
no_message = record { req_id = pos 0; train_id = pos 0; code = pos 0; data_0 = none; data_1 = none }

-- The mailbox of the listener, the argument of `requests_handler` with its own `pending_request`, the
-- buffer of its replies, and the tours that are left.
pub record Evc : Type 0 where
  pub mailbox : Mailbox
  pub rha : PendingRequest
  pub send_message : Message
  pub mission : ℤ

-- `main`: the listener has the address of `pending_request`; `rha` is built from its value.
abbrev pub wire : Message → ℤ → Evc
wire send_message mission =
    let pending_request : PendingRequest = record {
      message = no_message;
      recv_adr = 0;
      ready = false;
    } in
    record {
      mailbox = record { message_list = []; pending_request = pending_request };
      rha = pending_request;
      send_message = send_message;
      mission = mission;
    }

-- One round of `requests_handler`, once it sees `ready`.
abbrev pub serve : Message → ℤ → Evc → Evc
serve reply mission e = record e {
  send_message = reply;
  mission = mission;
  rha = record { message = no_message; recv_adr = 0; ready = false };
}

-- The threads of the train, in any order.
pub data EvcStep (e : Evc) : Evc → Type 0 where
  communicated : (box : Mailbox) → Step e.mailbox box → EvcStep e (record e { mailbox = box })
  served :
      (reply : Message) (mission : ℤ)
      → e.rha.ready ≡ true
      → handle_request e.rha.message e.send_message e.mission ≡ some (reply, mission)
      → EvcStep e (serve reply mission e)
  toured : EvcStep e (record e { mission = e.mission -ℤ pos 1 })

pub data EvcReach (e : Evc) : Evc → Type 0 where
  here : EvcReach e e
  later : {v u : Evc} → EvcReach e v → EvcStep v u → EvcReach e u

EvcStep-never_served :
    {e v : Evc}
    → EvcStep e v
    → e.rha.ready ≡ false
    → (v.rha.ready ≡ false) × (v.mission ≤ℤ e.mission)
EvcStep-never_served (communicated box s) idle = (idle, omega arith)
EvcStep-never_served (served reply mission ready done) idle = cc
EvcStep-never_served {e} toured idle = (idle, omega (arith, -ℤ_parts e.mission (pos 1)))

-- The handler waits on a copy of the pending request that no other thread writes. From the start of
-- the program, whatever arrives and in any order, it never sees a request, and the number of tours
-- that are left is never above the one given at the start.
pub no_mission_is_served :
    (send_message : Message) (mission : ℤ) (e : Evc)
    → EvcReach (wire send_message mission) e
    → (e.rha.ready ≡ false) × (e.mission ≤ℤ mission)
no_mission_is_served send_message mission e here = (refl, omega arith)
no_mission_is_served send_message mission e (later {v} r s) =
    let (idle, most) = no_mission_is_served send_message mission v r in
    let (idle', less) = EvcStep-never_served s idle in (idle', omega arith)
