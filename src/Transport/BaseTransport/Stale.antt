-- ===== src/Transport/BaseTransport/Stale.antt =====
-- The one-outstanding-query rule of BaseTransport, and the contract of the driver.
use hp34401a_driver.Base.{
  String, Bool, true, false, ◌≡◌, refl, List, [], ◌∷◌, arith, Option, none, some, All, is_some,
  if◌then◌else◌,
}
use hp34401a_driver.Errors.{Error, protocol, Result, ok, err}
use hp34401a_driver.Enums.{TransportType}
use hp34401a_driver.Transport.{Laws}
use hp34401a_driver.Transport.BaseTransport.{Core, Line, write, query, clear, close, base_transport}

-- A call that puts a command on the wire.
pub data Command : Type 0 where
  write_cmd query_cmd : String → Command

module _ {F : Type 0} (core : Core F) where
  open core use {W}

  -- the exception of a call, if it raised
  abbrev raised_by : {A : Type 0} → Result A → Option Error
  raised_by (ok a) = none
  raised_by (err e) = some e

  abbrev issue : Command → Line core → Option Error × Line core
  issue (write_cmd c) s = let (r, s') = write core c s in (raised_by r, s')
  issue (query_cmd c) s = let (r, s') = query core c s in (raised_by r, s')

  -- A caller that goes on after exceptions.
  pub issue_all : List Command → Line core → List (Option Error) × Line core
  issue_all [] s = ([], s)
  issue_all (c ∷ cs) s = let (r, s') = issue c s in let (rs, s'') = issue_all cs s' in (r ∷ rs, s'')

  abbrev pub AllRefused : List (Option Error) → Type 0
  AllRefused = All (λ r. r ≡ some protocol)

  refused_of_unread :
      (cs : List Command) (s : Line core)
      → s.has_unread_output ≡ true
      → AllRefused (issue_all cs s).0 × ((issue_all cs s).1 ≡ s)
  unfolding issue_all write query
  refused_of_unread [] s h = (tt, refl)
  refused_of_unread (write_cmd c ∷ cs) s h = ground (arith, refused_of_unread cs s h)
  refused_of_unread (query_cmd c ∷ cs) s h = ground (arith, refused_of_unread cs s h)

  unread_of_failed_query :
      (c : String) (s : Line core) (e : Error)
      → (query core c s).0 ≡ err e
      → (query core c s).1.has_unread_output ≡ true
  unfolding query
  unread_of_failed_query c s e h = ground arith

  -- After a query that raised, whatever it raised, every further command of any sequence is
  -- refused with a ProtocolError, and nothing of the sequence changes the line or reaches it.
  pub issue_all_after_failed_query :
      (c : String) (cs : List Command) (s : Line core) (e : Error)
      → (query core c s).0 ≡ err e
      → let s' = (query core c s).1 in AllRefused (issue_all cs s').0 × ((issue_all cs s').1 ≡ s')
  issue_all_after_failed_query c cs s e h =
      refused_of_unread cs (query core c s).1 (unread_of_failed_query c s e h)

  -- `clear` frees the line exactly when it returns; `close` frees it however it ends, and leaves
  -- the line shut.
  recovery_frees_line :
      (s : Line core)
      → ((clear core s).1.has_unread_output
          ≡ (if is_some (raised_by (clear core s).0) then s.has_unread_output else false))
        × ((close core s).1.has_unread_output ≡ false)
        × ((close core s).1.is_opened ≡ false)
  unfolding clear close
  recovery_frees_line s = (ground arith, ground arith, ground arith)

  close-is_opened : (s : Line core) → (close core s).1.is_opened ≡ false
  unfolding close
  close-is_opened s = ground arith

  -- A base transport keeps the contract that the driver relies on.
  base_transport-Laws :
      (kind : TransportType) (a b c : Bool) → Laws (base_transport core kind a b c)
  base_transport-Laws kind a b c = record {
    closed = close-is_opened;
    timeout_keeps_open = λ x s. refl;
  }
