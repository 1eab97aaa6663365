-- ===== src/Control/Server/Steps.antt =====
-- The steps of `Serve`, `acceptLoop` and `Close` (internal/control/service.go). What the system
-- answers to a call is left open: a removal and a registration may fail, `Listen` may refuse, and
-- does if the socket file is there, and `Accept` may fail at any time. On a closed listener `Accept`
-- gives no connection any more and returns an error. `Close` is called at most once.
use vibe_switch.Base.{ℕ, suc, ◌≡◌, Bool, true, false, not, ◌||◌, ◌&&◌, if◌then◌else◌}

-- Where `acceptLoop` stands: in `Accept`, or with a connection that it has accepted and has not yet
-- handed to a goroutine.
pub data Loop : Type 0 where
  not_started accepting handing finished : Loop

-- Where `Serve` and then `Close` stand; a Boolean is whether closing the listener succeeded.
pub data Life : Type 0 where
  not_served : Life
  unlinked : Life  -- behind the removal of a stale file
  bound : Life  -- the listener is open, the service not registered
  failed : Life  -- `Serve` has returned an error
  serving : Life
  closing : Life  -- `done` is closed
  waiting : Bool → Life  -- for the loop, behind the close of the listener
  waited : Bool → Life
  stopped : Bool → Life  -- `Close` has returned

-- `file` is whether the socket file exists, `connections` how many connections have been handed to
-- a goroutine. `unremoved` is not part of the program: it is whether a call of `os.Remove` has
-- failed on a socket file that was there. The error for a file that is not there is ignored.
pub record Server : Type 0 where
  pub life : Life
  pub loop : Loop
  pub listener : Bool
  pub file : Bool
  pub done : Bool
  pub connections : ℕ
  pub unremoved : Bool

-- Whether the socket file exists after `os.Remove`, which the system may refuse.
abbrev pub remove : Bool → Bool → Bool
remove allowed file = if allowed then false else file

-- Whether a file that was there could not be removed.
abbrev pub refused : Bool → Bool → Bool
refused allowed file = file && not allowed

-- Before `Serve`, perhaps with a stale file.
abbrev pub server : Bool → Server
server stale = record {
  life = not_served;
  loop = not_started;
  listener = false;
  file = stale;
  done = false;
  connections = 0;
  unremoved = false;
}

pub data Step (s t : Server) : Type 0 where
  removes_stale :
      (ok : Bool)
      → s.life ≡ not_served
      → t ≡ record s {
        life = unlinked;
        file = remove ok s.file;
        unremoved = s.unremoved || refused ok s.file;
      }
      → Step s t
  listens :
      s.life ≡ unlinked
      → s.file ≡ false
      → t ≡ record s { life = bound; listener = true; file = true }
      → Step s t
  refuses : s.life ≡ unlinked → t ≡ record s { life = failed } → Step s t
  registers : s.life ≡ bound → t ≡ record s { life = serving; loop = accepting } → Step s t
  fails_to_register :
      (ok : Bool)
      → s.life ≡ bound
      → t ≡ record s {
        life = failed;
        listener = false;
        file = remove ok s.file;
        unremoved = s.unremoved || refused ok s.file;
      }
      → Step s t
  accepts : s.loop ≡ accepting → s.listener ≡ true → t ≡ record s { loop = handing } → Step s t
  serves :
      s.loop ≡ handing
      → t ≡ record s { loop = accepting; connections = suc s.connections }
      → Step s t
  sees_closed :
      s.loop ≡ accepting → s.listener ≡ false → t ≡ record s { loop = finished } → Step s t
  fails_fatally : s.loop ≡ accepting → t ≡ record s { loop = finished } → Step s t
  calls_close : s.life ≡ serving → t ≡ record s { life = closing; done = true } → Step s t
  closes_listener :
      (ok unlinks : Bool)
      → s.life ≡ closing
      → t ≡ record s { life = waiting ok; listener = false; file = remove unlinks s.file }
      → Step s t
  waits :
      (ok : Bool)
      → s.life ≡ waiting ok
      → s.loop ≡ finished
      → t ≡ record s { life = waited ok }
      → Step s t
  removes_file :
      (ok removed : Bool)
      → s.life ≡ waited ok
      → t ≡ record s {
        life = stopped ok;
        file = remove removed s.file;
        unremoved = s.unremoved || refused removed s.file;
      }
      → Step s t

pub data Reach (s : Server) : Server → Type 0 where
  here : Reach s s
  next : {t u : Server} → Reach s t → Step t u → Reach s u
