-- ===== src/Lib.antt =====
-- A verification library for the Go server of The Return of the Odyssey: a server-authoritative
-- multiplayer game in which a TCP connection carries framed messages, a session state machine
-- judges each of them, the lobby forms groups of players, and a room runs their world.
--
-- The parts and their files:
--   Base: shared names, lists and maps over the native numbers.
--   Network.Frame: server/internal/network/frame.go. `Header`, `read_frame`, `write_frame`,
--   `encode_frame` are `Header`, `ReadFrame`, `WriteFrame`, `EncodeFrame`. A `[]byte` is a list of
--   numbers, the input stream the list of the bytes to come. Network.Frame.Stream has `readLoop`
--   of server.go, on fuel: a frame takes at least 16 bytes, so the stream's length plus one is
--   enough.
--   Network.Connection: the sending side of `Connection` in server/internal/network/server.go, as
--   a step function over its atomic actions; every interleaving is a list of actions.
--   Session: server/internal/session/session.go, method by method.
--   Lobby: server/internal/lobby/matchmaker.go, with the addresses of `container/list` elements.
--   Lobby.Refinement states the plain queue that it implements.
--   Game.Random, Game.Reward: server/internal/game/reward/round.go; a `*Round` is an `Option Round`.
--   Game.Entity, Game.Equipment, Game.Loadout, Game.Systems, Game.Stage, Game.Config, Game.Arena,
--   Game.Encounter: server/internal/game/entity, equipment, systems, stage/plan.go, arena.go and
--   encounter.go. A `float64` is a parameter, the record `Float64` of Base.Floats, with no laws. The
--   search of `routeAroundCover` runs once per node, as in the source; the walk back over its predecessors has as much fuel as
--   there are nodes and one more, which is enough since each predecessor was visited earlier.
--   Game.World: server/internal/game/world.go, ammo.go, pickups.go, performance.go, combat.go,
--   rewards.go, result.go and resume.go, a file each below it. Game.World.Calls lists the calls that
--   change a world; Game.World.Promises is about rewards that are open. `Game.World.Ticks.step` is
--   `Step`: players, pickups, `stepCombat`, `stepReward`.
--   Persistence.Writer: server/internal/persistence/result_writer.go, as a step function over its
--   atomic actions; the sinks, timers and cancelled contexts answer through the action.
--   Persistence.Tokens: server/internal/persistence/resume_tokens.go; Redis, SHA-256 and JSON are the
--   record `Backend`, what Redis promises the record `Documented`.
--   Room: server/internal/room/room.go. Room.antt has the state and what other goroutines call,
--   Room.Actor the room's goroutine. The world it runs is the record `Game` of Room.antt, an
--   interface to server/internal/game.
--   Application.Deferred: server/cmd/gameserver/deferred_events.go, the sink that holds events back
--   until the match is announced.
--
-- How they interact: `readLoop` hands frames to a handler, which asks the session (`accept`) before
-- anything else; a `MatchRequest` that passes goes to the matchmaker, whose groups become rooms;
-- what a room sends goes through a connection's queues. A room's goroutine alone calls its world,
-- which asks Game.Loadout for stats, Game.Arena for ways and Game.Reward for offers.
--
-- In Game.World a loop over a Go map runs in the order of an association list; the order matters
-- only for the float sums in performance.go.
--
-- Not modelled: input and output themselves (sockets, MySQL, Redis, files), protobuf code, time,
-- and the logging and metrics around the code above.
mod Base
pub mod Network
pub mod Session
pub mod Lobby
pub mod Game
pub mod Persistence
pub mod Room
pub mod Application
