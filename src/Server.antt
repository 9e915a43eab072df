-- ===== src/Server.antt =====
-- src/server.cpp: the tokenizer of the router and the routing of a line.
pub mod Start
pub mod Tokens
pub mod Routing
pub mod Accept
pub mod Client
pub mod Setup
pub mod Restart
use redon.Prelude.{
  ℕ, Bool, true, false, not, ◌&&◌, ◌||◌, Bytes, List, [], ◌∷◌, ◌++◌, codes, bytes_eq, if◌then◌else◌,
  is_empty,
}
use redon.Text.{skip_space, span_token}
use redon.Command.{Answer, say, skip_mark, to_upper}
use redon.Router.{Router, Dial, shard_for, forward}

-- The first two tokens of a line, the verb in upper case.
unfoldable pub verb_and_key : Bytes → Bytes × Bytes
verb_and_key line =
    let (verb, rest) = span_token (skip_mark (skip_space line)) in
    let (key, more) = span_token (skip_space rest) in (to_upper verb, key)

unfoldable pub route_line : Dial → Router → Bytes → Answer
route_line dial router line =
    let (verb, key) = verb_and_key line in
    if is_empty verb
    then say []
    else if bytes_eq verb (codes "QUIT") || bytes_eq verb (codes "EXIT")
    then record { should_close = true; reply = codes "OK" }
    else if bytes_eq verb (codes "PING")
    then say (codes "PONG")
    else if is_empty key
    then say (codes "ERR ROUTER: '" ++ verb ++ codes "' needs a key to route on")
    else say (forward dial router (shard_for router key) line)
