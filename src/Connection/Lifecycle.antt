-- ===== src/Connection/Lifecycle.antt =====
-- The channels that a direct client opens are closed once each, but for the one that is open.
use mathlib.Core.Path.{subst}
use hurricache_python_client.Base.{
  ℕ, ◌+◌, ◌≡◌, refl, sym, ap, ◌∙◌, Bool, true, Option, none, some, List, [], ◌∷◌, arith, ltb, ◌==◌,
  if◌then◌else◌,
}
use hurricache_python_client.Errors.{Result, ok}
use hurricache_python_client.Smart.Objects.{times}
use hurricache_python_client.Connection.{
  Connection, new_connection, connected, stubbed, shut_channel, channel_of, stub_of, close, Use,
  ask_channel, ask_stub, shut_down, used, used_all,
}

-- how often a channel is the open one
abbrev pub current : ℕ → Option ℕ → ℕ
current a none = 0
current a (some there) = if there == a then 1 else 0

-- Every channel opened was closed once or is the open one, and no other was.
abbrev pub ClosedOnce : Connection → Type 0
ClosedOnce s = (a : ℕ) → times a s.shut + current a s.channel ≡ (if ltb a s.opened then 1 else 0)

-- The stub is that of the open channel.
pub record Sound (s : Connection) : Type 0 where
  pub stub_on : s.stub ≡ s.channel
  pub once : ClosedOnce s

-- the same, of the fields
abbrev SoundAt : Option ℕ → Option ℕ → ℕ → List ℕ → Type 0
SoundAt channel stub opened shut =
    (stub ≡ channel)
    × ((a : ℕ) → times a shut + current a channel ≡ (if ltb a opened then 1 else 0))

opening :
    (closed : Bool) (channel stub : Option ℕ) (opened : ℕ) (shut : List ℕ)
    → SoundAt channel stub opened shut
    → Sound
        (channel_of (record {
          closed = closed;
          channel = channel;
          stub = stub;
          opened = opened;
          shut = shut;
        })).1
unfolding channel_of
opening closed none stub opened shut h = record {
  stub_on = refl;
  once = λ a. ground (arith, h.1 a);
}
opening closed (some there) stub opened shut h = record { stub_on = h.0; once = h.1 }

channel_of-Sound : (s : Connection) → Sound s → Sound (channel_of s).1
channel_of-Sound s h = opening s.closed s.channel s.stub s.opened s.shut (h.stub_on, h.once)

-- The stub is the channel's, and the assertion holds.
stub_there :
    (stub : Option ℕ) (s : Connection)
    → s.channel ≡ stub
    → stubbed stub s ≡ (ok (connected stub s).0, (connected stub s).1)
unfolding channel_of
stub_there (some there) s e = refl
stub_there none s e = rw e refl

pub stub_of-channel_of :
    (s : Connection) → Sound s → stub_of s ≡ (ok (channel_of s).0, (channel_of s).1)
unfolding stub_of channel_of
stub_of-channel_of s h =
    stub_there s.stub s (sym h.stub_on)
    ∙ ap (λ (c : Option ℕ). (ok (connected c s).0, (connected c s).1)) h.stub_on

closing :
    (channel : Option ℕ) (s : Connection)
    → s.channel ≡ channel
    → ClosedOnce s
    → (a : ℕ) → times a (shut_channel channel s).shut ≡ (if ltb a s.opened then 1 else 0)
closing none s e h a = omega (arith, h a, ap (current a) e)
closing (some there) s e h a = omega (arith, h a, ap (current a) e)

same_opened : (channel : Option ℕ) (s : Connection) → (shut_channel channel s).opened ≡ s.opened
same_opened none s = refl
same_opened (some there) s = refl

close-Sound : (s : Connection) → Sound s → Sound (close s)
unfolding close
close-Sound s h = record {
  stub_on = refl;
  once = λ a.
      let c = record s { closed = true } in
      rw (same_opened s.channel c) (omega (arith, closing s.channel c refl h.once a));
}

used-Sound : (step : Use) (s : Connection) → Sound s → Sound (used step s)
unfolding used
used-Sound ask_channel s h = channel_of-Sound s h
used-Sound ask_stub s h =
    subst (λ (r : Result ℕ × Connection). Sound r.1) (sym (stub_of-channel_of s h))
      (channel_of-Sound s h)
used-Sound shut_down s h = close-Sound s h

used_all-Sound : (steps : List Use) (s : Connection) → Sound s → Sound (used_all steps s)
used_all-Sound [] s h = h
used_all-Sound (step ∷ rest) s h = used_all-Sound rest (used step s) (used-Sound step s h)

new-Sound : Sound new_connection
new-Sound = record { stub_on = refl; once = λ a. ground arith }

-- A client that is closed opens a channel again when it is asked for one.
reopened : (s : Connection) → (channel_of (close s)).0 ≡ s.opened
unfolding channel_of close
reopened s = same_opened s.channel (record s { closed = true })

-- What holds of a connection: `Sound`, its stub is had with its channel, no channel is open after a
-- close, and a channel is opened anew if one is asked for then.
abbrev pub Managed : Connection → Type 0
Managed s =
    Sound s
    × (stub_of s ≡ (ok (channel_of s).0, (channel_of s).1))
    × ((a : ℕ) → times a (close s).shut ≡ (if ltb a (close s).opened then 1 else 0))
    × ((channel_of (close s)).0 ≡ s.opened)

-- Whatever the order in which a direct client is asked for its channel or its stub, or is closed,
-- one after the other: the stub is always that of the open channel, and asking for it never fails
-- its assertion; every channel opened was closed once, but for the open one; a close leaves none
-- open; and a client that is asked for a channel after its close opens one again.
pub used_all-Managed : (steps : List Use) → Managed (used_all steps new_connection)
unfolding close
used_all-Managed steps =
    let s = used_all steps new_connection in
    let h = used_all-Sound steps new_connection new-Sound in
    (h, stub_of-channel_of s h, λ a. omega (arith, (close-Sound s h).once a), reopened s)
