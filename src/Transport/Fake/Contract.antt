-- ===== src/Transport/Fake/Contract.antt =====
-- FakeTransport as a transport of the driver: the contract, and a simulated instrument that works.
use hp34401a_driver.Base.{String, true, false, ◌≡◌, refl, ap, List, [], arith}
use hp34401a_driver.Errors.{ok}
use hp34401a_driver.Transport.{Laws}
use hp34401a_driver.Transport.BaseTransport.{returned}
use hp34401a_driver.Transport.Fake.{
  Handler, Scripted, Fake, reply, write, query, close, is_known_query, fake_transport,
}
use hp34401a_driver.Driver.Read.Returns.{Working}

module _ {F : Type 0} (core : Scripted F) where
  open core use {W, open_core, close_core, client_write}

  -- Where the scripted instrument always closes, a fake transport keeps the contract.
  fake_transport-Laws : ((w : W) → (close_core w).0 ≡ returned tt) → Laws (fake_transport core)
  unfolding close
  fake_transport-Laws closes = record {
    closed = λ s. ground (arith, closes s.world);
    timeout_keeps_open = λ x s. refl;
  }

  -- A fake that is open, with nothing to time out on and no response for READ? but the default.
  pub record Simulates (raw : String) (s : Fake core) : Type 0 where
    pub is_open : s.is_opened ≡ true
    pub is_read : s.has_unread_output ≡ false
    pub none_silent : s.timeout_on ≡ []
    pub with_core : s.has_core ≡ true
    pub not_registered : is_known_query s.responses "READ?" ≡ false
    pub default_kept : s.default_response ≡ raw

  -- The scripted instrument takes every command, as it does without an error for unknown ones.
  abbrev TakesAll : Type 0
  TakesAll =
      (h : Handler) (c : String) (w : W) (queue : List String)
      → (client_write h c w queue).0 ≡ returned tt

  write-returns :
      {raw : String}
      → TakesAll
      → (c : String) (s : Fake core) → Simulates raw s
      → (write core c s).0 ≡ ok tt
  unfolding write
  write-returns takes c s h =
      rw (h.is_read, h.none_silent, h.with_core)
        (ground (arith, takes (reply s.idn) c s.world s.error_queue))

  write-Simulates :
      {raw : String}
      → (c : String) (s : Fake core) → Simulates raw s
      → Simulates raw (write core c s).1
  unfolding write
  write-Simulates c s h = record {
    is_open = ground (arith, h.is_open);
    is_read = ground (arith, h.is_read);
    none_silent = ground (arith, h.none_silent);
    with_core = ground (arith, h.with_core);
    not_registered = ground (arith, h.not_registered);
    default_kept = ground (arith, h.default_kept);
  }

  query-default :
      {raw : String} (s : Fake core) → Simulates raw s → (query core "READ?" s).0 ≡ ok raw
  unfolding query
  query-default s h = rw (h.is_read, h.none_silent, h.not_registered) (ap ok h.default_kept)

  -- Such a fake works.
  pub simulated : (raw : String) → TakesAll → Working (fake_transport core) raw
  simulated raw takes = record {
    Works = Simulates raw;
    opened = λ s h. h.is_open;
    written = write-returns takes;
    write_keeps = write-Simulates;
    timeout_keeps = λ x s h. h;
    answered = query-default;
  }

  pub simulated-Works :
      (raw : String) (takes : TakesAll) (s : Fake core)
      → Simulates raw s
      → Working.Works (simulated raw takes) s
  unfolding simulated
  simulated-Works raw takes s h = h
