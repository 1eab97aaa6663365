-- ===== src/Tests/Servers.antt =====
-- A control server that is closed while its loop accepts, with a stale socket file at the start.
use vibe_switch.Base.{◌≡◌, ◌≢◌, refl, true, false}
use vibe_switch.Control.Server.{
  Server, server, accepting, handing, finished, serving, waiting, stopped, Reach, here, next,
  removes_stale, listens, registers, accepts, serves, calls_close, closes_listener, sees_closed,
  waits, removes_file,
}
use vibe_switch.Control.Server.Shutdown.{
  CanStop, accepted, server_leaves_nothing, no_accept_after_close, close_can_return,
}

-- Two connections have been accepted, of which the second has not been handed on, and the listener
-- has been closed.
abbrev listener_closed : Server
listener_closed = record {
  life = waiting true;
  loop = handing;
  listener = false;
  file = false;
  done = true;
  connections = 1;
  unremoved = false;
}

abbrev server_accepting : Server
server_accepting = record (server false) {
  life = serving;
  loop = accepting;
  listener = true;
  file = true;
}

accepting_reached : Reach (server true) server_accepting
accepting_reached =
    next (next (next here (removes_stale true refl refl)) (listens refl refl refl))
      (registers refl refl)

closed_reached : Reach (server true) listener_closed
closed_reached =
    next
      (next
        (next (next (next accepting_reached (accepts refl refl refl)) (serves refl refl))
          (accepts refl refl refl))
        (calls_close refl refl))
      (closes_listener true true refl refl)

abbrev server_stopped : Server
server_stopped = record listener_closed { life = stopped true; loop = finished; connections = 2 }

-- The file is gone with the listener, so that the last removal finds none, which is ignored.
stopped_reached : Reach listener_closed server_stopped
stopped_reached =
    next
      (next (next (next here (serves refl refl)) (sees_closed refl refl refl))
        (waits true refl refl refl))
      (removes_file true false refl refl)

after_all : Reach (server true) server_stopped
after_all =
    next
      (next (next (next closed_reached (serves refl refl)) (sees_closed refl refl refl))
        (waits true refl refl refl))
      (removes_file true false refl refl)

server_leaves_nothing_example :
    (server_stopped.listener ≡ false)
    × (server_stopped.loop ≢ accepting)
    × (server_stopped.loop ≢ handing)
    × (server_stopped.file ≡ true → server_stopped.unremoved ≡ true)
server_leaves_nothing_example = server_leaves_nothing after_all tt

no_accept_after_close_example : accepted server_stopped ≡ accepted listener_closed
no_accept_after_close_example = no_accept_after_close closed_reached tt stopped_reached

close_can_return_example : CanStop listener_closed
close_can_return_example = close_can_return closed_reached tt
