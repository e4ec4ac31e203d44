-- ===== src/Exec.antt =====
-- How a request runs: an asynchronous SQLAlchemy session (backend/app/core/db.py, `get_session`).
-- A service is an action on a `Session`. Row locks order the requests that meet, so an action runs
-- alone; `flush` and `refresh` have no effect of their own, since a query sees what was added.
use tasktrack.Prelude.{Bool}
use tasktrack.Model.{Tables}
use tasktrack.Bus.{EventBus}
use tasktrack.Query
use tasktrack.Query.{Query, Result, ok, err, Error}

-- `tables` is what the session's transaction sees, `committed` what its last commit stored.
pub record Session : Type 0 where
  pub committed : Tables
  pub tables : Tables
  pub bus : EventBus

abbrev pub Exec : Type 0 → Type 0
Exec A = Session → Result A × Session

module _ {A : Type 0} where
  abbrev pub pure : A → Exec A
  pure a s = (ok a, s)

  abbrev pub raise : Error → Exec A
  raise e s = (err e, s)

  abbrev pub ask : Query A → Exec A
  ask q s = (q s.tables, s)

abbrev pub require : Bool → Error → Exec (Unit {0})
require b e = ask (Query.require b e)

-- An insert, update or delete: seen by the transaction, and stored by the next commit.
abbrev pub write : (Tables → Tables) → Exec (Unit {0})
write f s = (ok tt, record s { tables = f s.tables })

abbrev pub commit : Exec (Unit {0})
commit s = (ok tt, record s { committed = s.tables })

abbrev pub with_bus : (EventBus → EventBus) → Exec (Unit {0})
with_bus f s = (ok tt, record s { bus = f s.bus })

abbrev pub continue : {A B : Type 0} → Result A → (A → Exec B) → Exec B
continue (ok a) f s = f a s
continue (err e) f s = (err e, s)

infixl 10 ◌>>=◌ ◌>>◌
unfoldable pub ◌>>=◌ : {A B : Type 0} → Exec A → (A → Exec B) → Exec B
◌>>=◌ m f s = let (r, s') = m s in continue r f s'

abbrev pub ◌>>◌ : {A B : Type 0} → Exec A → Exec B → Exec B
m >> n = m >>= λ _. n

-- What outlives a request.
pub record Server : Type 0 where
  pub tables : Tables
  pub bus : EventBus

-- `async with SessionLocal()`: closing the session rolls back what no commit stored.
unfoldable pub serve : {A : Type 0} → Exec A → Server → Result A × Server
serve m srv =
    let (r, s) = m (record { committed = srv.tables; tables = srv.tables; bus = srv.bus }) in
    (r, record { tables = s.committed; bus = s.bus })
