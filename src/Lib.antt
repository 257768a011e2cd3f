-- ===== src/Lib.antt =====
-- synapse-guardian: a module of the Matrix homeserver Synapse that protects chosen local users.
--
-- The program. The configuration (synapse_guardian/config.py) gives static rules and may name a
-- control room. The store (synapse_guardian/store.py) reads more rules from that room's state,
-- trusting senders by the room's power levels, and keeps the merged rule set
-- (synapse_guardian/policy.py) until it is stale or too old. The callbacks
-- (synapse_guardian/module.py) ask the store for the rules and forbid invites, joins and room
-- changes that the rules do not allow; what they forbid is told in notices
-- (synapse_guardian/notify.py), which are throttled. The publisher (synapse_guardian/publish.py) writes
-- the rules that were loaded back into the control room. A maubot plugin (bot/guardian_bot) lets
-- people add and remove the rules of that room by commands, lists and checks them, and posts the
-- notices that the module sends to its webhook. A script (scripts/reject_pending_invites.py) rejects
-- the invites that were pending before the module was there.
--
-- The files.
--   Prelude, Prelude/*   lists, texts, results of calls that may raise, Boolean tests
--   Unicode              the tables of `str` that the program uses: a parameter, with an ASCII instance
--   TextSet              a frozenset of texts, as an ordered list
--   Value                what json.loads gives, and `int` and `str.strip` on texts
--   Glob, Glob/*         policy.py: glob_to_regex, the pattern that it gives, and what a glob means
--   Policy, Policy/*     policy.py: kinds (Kinds), validate_pattern and server_of (Patterns), power
--                        levels (Power), RuleSet with build, merge and evaluate (Rules), to_payload and
--                        from_payload (Payload); the others hold the proofs
--   Notify, Notify/*     notify.py: sanitise and format_block (Notify), _should_send (Throttle), notify,
--                        RoomNotifier and WebhookNotifier (Transports)
--   Config, Config/*     config.py: the readers of single keys (Config), GuardianConfig.parse (Parse)
--   Matrix               events, room state, and the module API as a parameter
--   Store, Store/*       store.py: _RoomAuthority, _SenderPower and _read_control_room (Store),
--                        get_rules, refresh, invalidate and _check_admins (Refresh); what the store
--                        promises (Refinement)
--   Guardian, Guardian/* module.py: _block and _fail_closed_if_protected (Guardian),
--                        _known_room_reason and _open_room_reason (Reasons), the callbacks for invites
--                        (Invites), joins (Joins), rooms (Rooms) and events (Events), _warm_up
--                        (WarmUp), __init__ (Startup), and the processes that they start
--                        (Background)
--   Publish, Publish/*   publish.py: RoomPublisher
--   Bot, Bot/*           bot/guardian_bot/__init__.py: entries_from_state and RoomAuthority (Bot),
--                        resolve_user_arg (Links), the client, messages and replies (Chat), the
--                        subcommands with may_mutate, add and remove (Commands, and Requests for
--                        what follows may_mutate), list_cmd and static_extra_lines (Listing), the
--                        webhook (Webhook)
--   PendingInvites, PendingInvites/*
--                        scripts/reject_pending_invites.py: main with its requests (PendingInvites), and
--                        the users of a run (Users)
--   Tests, Tests/*       runs on concrete inputs
--
-- How state and effects are modelled. `PolicyStore` and `Guardian` are records that are passed along.
-- A callback is a function of the state that returns a verdict or raises, with the state after it;
-- `try`/`except Exception` is `catch`. An answer of the API that is `none` is one that raises. During
-- one callback the answers of the API are functions of the question. A background process is an
-- element of the list `tasks`; `run_as_background_process` raises where `can_start` is false. Where
-- the source awaits inside `refresh`, Store/Races splits it and lets an event come in between.
--
-- Numbers. Texts are lists of code points. Times are natural numbers of milliseconds, or of any other
-- tick in Notify/Throttle; a float of the configuration is its number of milliseconds. Python's
-- integers have no bound, and neither have ℕ and ℤ here. Every recursion is structural: there is no
-- fuel.
--
-- A command of the plugin is a function of the room's state and of the replies so far that may raise
-- what the client raises; a reply is a constructor with what its text is filled with, and is taken to
-- be given. The room is one state: an event that is sent replaces the one at its place, and a call of
-- the client raises or not by the room as it stands. The regular expressions for links are written as
-- scanners of the same texts; a scanner skips the characters that a match has taken by a counter.
--
-- Not modelled: logging; the reading of arguments and files and the URLs of the script; the plugin's
-- copy of policy.py (bot/guardian_bot/policy.py), which is verbatim; guardian_tests/. Parameters
-- that stand for code elsewhere: Synapse's module API, maubot and its client, the tables of Unicode,
-- html.unescape, urllib.parse.unquote, the calendar, json.loads, and the reading of files.
pub mod Prelude
pub mod Unicode
pub mod Glob
pub mod TextSet
pub mod Value
pub mod Policy
pub mod Notify
pub mod Config
pub mod Matrix
pub mod Store
pub mod Publish
pub mod Guardian
pub mod Bot
pub mod PendingInvites
pub mod Tests
