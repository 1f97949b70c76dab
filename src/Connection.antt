-- ===== src/Connection.antt =====
-- The channel of a direct client, of hurricache/grpc/client.py and async_client.py: made when it is
-- first asked for, and closed with the client. A channel is a number, in the order in which they
-- are opened; a stub is known by the channel it was made on.
pub mod Lifecycle
use hurricache_python_client.Base.{ℕ, ◌+◌, Bool, true, false, Option, none, some, List, [], ◌∷◌}
use hurricache_python_client.Errors.{Result, ok, err, assertion_error}

-- `opened` and `shut`, which the program does not keep, have the number of channels that were made
-- and the calls of `close` on them.
pub record Connection : Type 0 where
  pub closed : Bool
  pub channel : Option ℕ
  pub stub : Option ℕ
  pub opened : ℕ
  pub shut : List ℕ

-- `__init__`
abbrev pub new_connection : Connection
new_connection = record { closed = false; channel = none; stub = none; opened = 0; shut = [] }

abbrev pub connected : Option ℕ → Connection → ℕ × Connection
connected (some there) s = (there, s)
connected none s =
    (s.opened, record s { channel = some s.opened; stub = some s.opened; opened = s.opened + 1 })

-- the property `channel`
unfoldable pub channel_of : Connection → ℕ × Connection
channel_of s = connected s.channel s

-- `assert self._stub is not None`
abbrev pub asserted : Option ℕ → Result ℕ
asserted none = err assertion_error
asserted (some stub) = ok stub

abbrev pub stubbed : Option ℕ → Connection → Result ℕ × Connection
stubbed (some there) s = (ok there, s)
stubbed none s = let (_, s') = channel_of s in (asserted s'.stub, s')

-- the property `stub`
unfoldable pub stub_of : Connection → Result ℕ × Connection
unfolding channel_of
stub_of s = stubbed s.stub s

abbrev pub shut_channel : Option ℕ → Connection → Connection
shut_channel none s = s
shut_channel (some there) s = record s { shut = there ∷ s.shut }

-- `close`
unfoldable pub close : Connection → Connection
close s = record (shut_channel s.channel (record s { closed = true })) {
  channel = none;
  stub = none;
}

-- what is done to a client, one thing at a time
pub data Use : Type 0 where
  ask_channel ask_stub shut_down : Use

unfoldable pub used : Use → Connection → Connection
unfolding channel_of stub_of close
used ask_channel s = (channel_of s).1
used ask_stub s = (stub_of s).1
used shut_down s = close s

abbrev pub used_all : List Use → Connection → Connection
used_all [] s = s
used_all (step ∷ rest) s = used_all rest (used step s)
