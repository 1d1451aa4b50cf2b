-- ===== src/ServerConn/Accounts/Running.antt =====
-- The two routines of a connection of rpc/server_conn.go, and the methods that run for it, in any
-- order of their pieces. RoutineRun reads again whatever became of the last request, which only
-- adds orders.
use gopl.Prelude.{refl, true, ℕ, ◌+◌, ◌≤◌, ◌≡◌, Option, List, [], count, none, some}
use gopl.Prelude.Run.{Run, finished}
use gopl.RpcError.{GoError}
use gopl.Codec.{IServerCodec}
use gopl.Server.{GoType, Services}
use gopl.Client.Choose.{remove_first}
use gopl.ServerConn.{TServerConn, new_server_conn}
use gopl.ServerConn.Responses.{do_call}
use gopl.ServerConn.Requests.{run_round, Round, next, RoundEnv, Read, handle, read_request}
use gopl.ServerConn.Accounts.Reading.{round_held, NoDispatch}
use gopl.ServerConn.Sender.{Sender, waits, sender_piece}

-- A connection with its routines: the calls whose methods run, the request that RoutineRun has
-- read and counted, if any, and where RoutineWriteResponse is.
pub record Running (V S : Type 0) : Type 0 where
  pub conn : TServerConn V S
  pub held : List ℕ
  pub reader : Option (Read V)
  pub sender : Sender

module _ {V S : Type 0} where
  -- A new connection whose two routines were started.
  abbrev pub started : S → ℕ → Running V S
  started y n = record { conn = new_server_conn y n; held = []; reader = none; sender = waits }

module _ {V S : Type 0} (codec : IServerCodec V S) (new_value : GoType → V) where
  -- RoutineRun with the request that it has read.
  unfoldable pub handle_next :
      RoundEnv V S → Option (Read V) → TServerConn V S → Run (TServerConn V S × Round)
  unfolding handle
  handle_next env none c = finished (c, next)
  handle_next env (some r) c = handle codec new_value env r c

  -- What the connection is once RoutineRun has read a request and counted it.
  unfoldable pub read_next : Services → TServerConn V S → TServerConn V S × Read V
  unfolding read_request
  read_next services c =
      let (y, r) = read_request codec new_value services c.codec in
      (record c { codec = y; pending_wg = c.pending_wg + 1 }, r)

  -- The two pieces in a row are a round of RoutineRun while the server runs.
  run_round-pieces :
      (env : RoundEnv V S) (services : Services) (c : TServerConn V S)
      → env.deadline ≡ none
      → env.running ≡ true
      → let (d, r) = read_next services c in
        run_round codec new_value env services c ≡ handle_next env (some r) d
  unfolding run_round read_next handle_next
  run_round-pieces env services c e t = rw (e, t) refl

  -- RoutineRun reads a request, or deals with the one that it has read; RoutineWriteResponse does
  -- its next piece; or a method returns.
  pub data Step (ρ : Running V S) : Running V S → Type 0 where
    reads :
        (services : Services)
        → ρ.reader ≡ none
        → Step ρ (record ρ {
          conn = (read_next services ρ.conn).0;
          reader = some (read_next services ρ.conn).1;
        })
    handles :
        (env : RoundEnv V S) (d : TServerConn V S) (r : Round)
        → NoDispatch env
        → handle_next env ρ.reader ρ.conn ≡ finished (d, r)
        → Step ρ (record ρ { conn = d; reader = none; held = round_held r ρ.held })
    sends :
        (d : TServerConn V S) (s : Sender)
        → sender_piece codec ρ.sender ρ.conn ≡ finished (d, s)
        → Step ρ (record ρ { conn = d; sender = s })
    returns :
        (x : ℕ) (ret : List (Option GoError)) (d : TServerConn V S)
        → 1 ≤ count x ρ.held
        → do_call x ret ρ.conn ≡ finished d
        → Step ρ (record ρ { conn = d; held = remove_first x ρ.held })

  pub data Steps (ρ : Running V S) : Running V S → Type 0 where
    here : Steps ρ ρ
    next_step : {σ τ : Running V S} → Steps ρ σ → Step σ τ → Steps ρ τ
