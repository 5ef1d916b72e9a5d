-- ===== src/Transport/Fake/History.antt =====
-- What FakeTransport records of the commands that it is given, and what it refuses.
use mathlib.Core.List.{append_assoc, append-nil}
use hp34401a_driver.Base.{
  String, Bool, true, false, ◌≡◌, refl, ap, ◌∙◌, List, [], ◌∷◌, ◌++◌, arith, inl, inr, Bool-cases,
  if◌then◌else◌, ◌||◌,
}
use hp34401a_driver.Transport.BaseTransport.Stale.{Command, write_cmd, query_cmd}
use hp34401a_driver.Transport.Fake.{Scripted, Fake, write, query, one_of}

-- The commands up to the first query that is set to time out.
unfoldable pub taken : List String → List Command → List Command
taken silent [] = []
taken silent (write_cmd c ∷ cs) = write_cmd c ∷ taken silent cs
taken silent (query_cmd c ∷ cs) =
    let more = taken silent cs in query_cmd c ∷ (if one_of c silent then [] else more)

-- Whether there is such a query.
unfoldable pub times_out : List String → List Command → Bool
times_out silent [] = false
times_out silent (write_cmd c ∷ cs) = times_out silent cs
times_out silent (query_cmd c ∷ cs) = one_of c silent || times_out silent cs

abbrev pub texts : List Command → List String
texts [] = []
texts (write_cmd c ∷ cs) = c ∷ texts cs
texts (query_cmd c ∷ cs) = c ∷ texts cs

abbrev pub written : List Command → List String
written [] = []
written (write_cmd c ∷ cs) = c ∷ written cs
written (query_cmd c ∷ cs) = written cs

abbrev queried : List Command → List String
queried [] = []
queried (write_cmd c ∷ cs) = queried cs
queried (query_cmd c ∷ cs) = c ∷ queried cs

-- What the fake keeps of its commands.
pub record Log : Type 0 where
  pub history : List String
  pub write_history : List String
  pub query_history : List String
  pub timeout_on : List String
  pub unread : Bool

-- The log after more commands that were taken.
abbrev logged : List Command → Bool → Log → Log
logged cs unread l = record {
  history = l.history ++ texts cs;
  write_history = l.write_history ++ written cs;
  query_history = l.query_history ++ queried cs;
  timeout_on = l.timeout_on;
  unread = unread;
}

-- The log after one command.
abbrev wrote : String → Log → Log
wrote c l = record l {
  history = l.history ++ c ∷ [];
  write_history = l.write_history ++ c ∷ [];
  unread = false;
}

abbrev asked : String → Bool → Log → Log
asked c unread l = record l {
  history = l.history ++ c ∷ [];
  query_history = l.query_history ++ c ∷ [];
  unread = unread;
}

-- The log after commands, from the log before them.
abbrev logged_all : List Command → Log → Log
logged_all cs l = logged (taken l.timeout_on cs) (times_out l.timeout_on cs) l

logged-nil : (l : Log) → l.unread ≡ false → l ≡ logged [] false l
logged-nil l h = simp append-nil (ap (λ b. record l { unread = b }) h)

logged-write :
    (c : String) (cs : List Command) (l : Log)
    → logged_all cs (wrote c l) ≡ logged_all (write_cmd c ∷ cs) l
unfolding taken times_out
logged-write c cs l = simp (append_assoc)

logged-query :
    (c : String) (cs : List Command) (l : Log)
    → one_of c l.timeout_on ≡ false
    → logged_all cs (asked c false l) ≡ logged_all (query_cmd c ∷ cs) l
unfolding taken times_out
logged-query c cs l e = simp (append_assoc, e)

logged-silent :
    (c : String) (cs : List Command) (l : Log)
    → one_of c l.timeout_on ≡ true
    → asked c true l ≡ logged_all (query_cmd c ∷ cs) l
unfolding taken times_out
logged-silent c cs l e = simp (append-nil, e)

module _ {F : Type 0} {core : Scripted F} where
  abbrev pub log : Fake core → Log
  log s = record {
    history = s.history;
    write_history = s.write_history;
    query_history = s.query_history;
    timeout_on = s.timeout_on;
    unread = s.has_unread_output;
  }

  -- A caller that goes on after exceptions.
  pub issue : Command → Fake core → Fake core
  issue (write_cmd c) s = (write core c s).1
  issue (query_cmd c) s = (query core c s).1

  pub issue_all : List Command → Fake core → Fake core
  unfolding issue
  issue_all [] s = s
  issue_all (c ∷ cs) s = issue_all cs (issue c s)

  write-log :
      (c : String) (s : Fake core)
      → s.has_unread_output ≡ false
      → log (write core c s).1 ≡ wrote c (log s)
  unfolding write
  write-log c s h = ground arith

  query-log :
      (c : String) (s : Fake core)
      → s.has_unread_output ≡ false
      → log (query core c s).1 ≡ asked c (one_of c s.timeout_on) (log s)
  unfolding query
  query-log c s h = ground arith

  issue-unread : (c : Command) (s : Fake core) → s.has_unread_output ≡ true → issue c s ≡ s
  unfolding issue write query
  issue-unread (write_cmd c) s h = ground arith
  issue-unread (query_cmd c) s h = ground arith

  issue_all-unread :
      (cs : List Command) (s : Fake core) → s.has_unread_output ≡ true → issue_all cs s ≡ s
  unfolding issue_all
  issue_all-unread [] s h = refl
  issue_all-unread (c ∷ cs) s h = ap (issue_all cs) (issue-unread c s h) ∙ issue_all-unread cs s h

  -- Any sequence of commands, given while no response is unread, is recorded in order up to the
  -- first query that is set to time out, whatever the instrument does with each; that query leaves
  -- its response unread, and what follows it is refused and changes nothing.
  pub issue_all-log :
      (cs : List Command) (s : Fake core)
      → s.has_unread_output ≡ false
      → log (issue_all cs s) ≡ logged (taken s.timeout_on cs) (times_out s.timeout_on cs) (log s)
  unfolding issue_all issue taken times_out
  issue_all-log [] s h = logged-nil (log s) h
  issue_all-log (write_cmd c ∷ cs) s h =
      let e = write-log c s h in
      issue_all-log cs (write core c s).1 (ap (λ l. l.unread) e)
      ∙ ap (logged_all cs) e
      ∙ logged-write c cs (log s)
  issue_all-log (query_cmd c ∷ cs) s h =
      let e = query-log c s h in
      elim (Bool-cases (one_of c s.timeout_on)) [
        | inl silent ↦
            ap log (issue_all-unread cs (query core c s).1 (ap (λ l. l.unread) e ∙ silent))
            ∙ e
            ∙ ap (λ b. asked c b (log s)) silent
            ∙ logged-silent c cs (log s) silent
        | inr heard ↦
            issue_all-log cs (query core c s).1 (ap (λ l. l.unread) e ∙ heard)
            ∙ ap (logged_all cs) e
            ∙ ap (λ b. logged_all cs (asked c b (log s))) heard
            ∙ logged-query c cs (log s) heard
      ]
