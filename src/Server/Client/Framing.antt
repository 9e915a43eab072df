-- ===== src/Server/Client/Framing.antt =====
-- How `handle_client` of src/server.cpp serves the complete lines of a connection's buffer.
use redon.Prelude.{
  ℕ, zero, suc, ◌+◌, ◌≤◌, ◌≡◌, ◌⊎◌, refl, ap, ◌∙◌, sym, true, false, Bytes, List, [], ◌∷◌, ◌++◌,
  none, some, arith, if◌then◌else◌, length, length-append, Bool-cases, Option-cases, inl, inr,
  bytes_eq, codes,
}
use redon.Command.{World, linked}
use redon.Command.Links.{execute_line-IsLinked}
use redon.Server.Client.{
  Server, Surroundings, Client, count_line, answer_line, serve_line, find_line, serve_lines,
}
use redon.Server.{verb_and_key}
use redon.Server.Client.Buffer.{
  line_ends, after_last_end, complete_lines, after_last_end-none, find_line-none, find_line-some,
}

-- What a line does to a server and a connection that it does not end.
unfoldable pub serve_one : Surroundings → Bytes → Server → Client → Server × Client
serve_one env line s c =
    let verb = (verb_and_key line).0 in
    let r = answer_line env verb line s c in
    (
      record r.server {
        metrics = count_line (env.elapsed c.served) c.is_replica_link verb r r.server.metrics;
      },
      record c {
        is_replica_link = r.link;
        served = c.served + 1;
        sent = if c.is_replica_link then c.sent else c.sent ++ r.answer.reply ∷ [];
      },
    )

-- One line after the other.
unfoldable pub serve_all : Surroundings → List Bytes → Server → Client → Server × Client
serve_all env [] s c = (s, c)
serve_all env (line ∷ lines) s c =
    let (s', c') = serve_one env line s c in serve_all env lines s' c'

answer_line-link :
    (env : Surroundings) (verb line : Bytes) (s : Server) (c : Client)
    → c.is_replica_link ≡ true
    → (answer_line env verb line s c).link ≡ true
unfolding answer_line linked
answer_line-link env verb line s c h = elim (Bool-cases (bytes_eq verb (codes "INFO"))) [
  | inl e ↦ rw (e, answer_line) h
  | inr e ↦ elim (Option-cases s.router) [
    | inr (r, e') ↦ rw (e, e') h
    | inl e' ↦
        let w : World = record {
          store = s.store;
          replica_link = some c.is_replica_link;
          raft = s.raft;
          get_hit = some false;
        } in
        rw (e, e')
          (ap linked (execute_line-IsLinked s.is_follower (env.moment c.served) line w (ap some h)))
  ]
]

serve_line-inbuf :
    (env : Surroundings) (line : Bytes) (s : Server) (c : Client)
    → ((serve_line env line s c).1.inbuf ≡ c.inbuf)
      × ((serve_line env line s c).1.served ≡ c.served + 1)
unfolding serve_line
serve_line-inbuf env line s c = ground arith

serve_line-link :
    (env : Surroundings) (line : Bytes) (s : Server) (c : Client)
    → c.is_replica_link ≡ true
    → (serve_line env line s c).1.is_replica_link ≡ true
unfolding serve_line
serve_line-link env line s c h =
    ground (arith, h, answer_line-link env (verb_and_key line).0 line s c h)

-- A connection that is not a link and outlives the line has been sent one reply.
serve_line-sent :
    (env : Surroundings) (line : Bytes) (s : Server) (c : Client)
    → c.is_replica_link ≡ false
    → (serve_line env line s c).2 ≡ true
    → length (serve_line env line s c).1.sent ≡ length c.sent + 1
unfolding serve_line
serve_line-sent env line s c h = elim (Bool-cases (env.deliver c.served)) [
  | inl e ↦ rw (h, e, serve_line) (λ going. length-append c.sent (_ ∷ []))
  | inr e ↦ rw (h, e, serve_line) (λ stop. absurd (ground (arith, stop)))
]

-- A line that the connection outlives does what it does by itself, whatever the buffer holds.
serve_line-one :
    (env : Surroundings) (line more left : Bytes) (s : Server) (c : Client)
    → (serve_line env line s (record c { inbuf = more })).2 ≡ true
    → serve_one env line s (record c { inbuf = left }) ≡ (
      (serve_line env line s (record c { inbuf = more })).0,
      record ((serve_line env line s (record c { inbuf = more })).1) { inbuf = left },
    )
unfolding serve_line serve_one answer_line
serve_line-one env line more left s c = elim (Bool-cases c.is_replica_link) [
  | inl l ↦ rw (l, serve_line, serve_one) (λ going. refl)
  | inr l ↦ elim (Bool-cases (env.deliver c.served)) [
    | inl e ↦ rw (l, e, serve_line, serve_one) (λ going. refl)
    | inr e ↦ rw (l, e, serve_line) (λ stop. absurd (ground (arith, stop)))
  ]
]

-- The first complete line of a buffer, served, and then the others.
served_first :
    (env : Surroundings) (line more : Bytes) (s : Server) (c : Client)
    → find_line c.inbuf ≡ some (line, more)
    → (serve_line env line s (record c { inbuf = more })).2 ≡ true
    → serve_all env
        (complete_lines (serve_line env line s (record c { inbuf = more })).1.inbuf)
        (serve_line env line s (record c { inbuf = more })).0
        (record ((serve_line env line s (record c { inbuf = more })).1) {
          inbuf = after_last_end (serve_line env line s (record c { inbuf = more })).1.inbuf;
        })
      ≡ serve_all env (complete_lines c.inbuf) s (record c { inbuf = after_last_end c.inbuf })
unfolding serve_all
served_first env line more s c e going =
    let (one, behind, shorter, lines) = find_line-some c.inbuf line more e in
    let (s', c', go) = serve_line env line s (record c { inbuf = more }) in
    ap (λ b. serve_all env (complete_lines b) s' (record c' { inbuf = after_last_end b }))
      (serve_line-inbuf env line s (record c { inbuf = more })).0
    ∙ ap (λ (x : Server × Client). serve_all env (complete_lines more) x.0 x.1)
        (sym (serve_line-one env line more (after_last_end more) s c going))
    ∙ ap (λ b. serve_all env (line ∷ complete_lines more) s (record c { inbuf = b })) (sym behind)
    ∙ ap (λ l. serve_all env l s (record c { inbuf = after_last_end c.inbuf })) (sym lines)

-- A link stays one, whatever it brings.
serve_lines-link :
    (env : Surroundings) (fuel : ℕ) (s : Server) (c : Client)
    → c.is_replica_link ≡ true
    → (serve_lines env fuel s c).1.is_replica_link ≡ true
unfolding serve_lines
serve_lines-link env zero s c h = h
serve_lines-link env (suc fuel) s c h = elim (Option-cases (find_line c.inbuf)) [
  | inl e ↦ rw (e, serve_lines) h
  | inr ((line, more), e) ↦
      let c0 = record c { inbuf = more } in
      let (s', c', go) = serve_line env line s c0 in
      let kept = serve_line-link env line s c0 h in
      let rest = serve_lines-link env fuel s' c' kept in
      rw (e, serve_lines) (elim (Bool-cases go) [ inl g ↦ rw g rest | inr g ↦ rw g kept ])
]

-- What the loop leaves of a connection that goes on.
pub record Drained (env : Surroundings) (s : Server) (c : Client) (s' : Server) (c' : Client)
    : Type 0 where
  pub in_order :
      (s', c')
      ≡ serve_all env (complete_lines c.inbuf) s (record c { inbuf = after_last_end c.inbuf })
  pub served : c'.served ≡ c.served + line_ends c.inbuf
  pub left : c'.inbuf ≡ after_last_end c.inbuf
  pub none_left : find_line c'.inbuf ≡ none
  pub answered : (c'.is_replica_link ≡ true) ⊎ (length c'.sent ≡ length c.sent + line_ends c.inbuf)

Drained-here :
    (env : Surroundings) (s : Server) (c : Client) → find_line c.inbuf ≡ none → Drained env s c s c
unfolding serve_all
Drained-here env s c e =
    let (no_ends, no_lines) = find_line-none c.inbuf e in
    record {
      in_order = rw (no_lines, after_last_end-none c.inbuf no_ends) refl;
      served = omega (arith, no_ends);
      left = sym (after_last_end-none c.inbuf no_ends);
      none_left = e;
      answered = inr (omega (arith, no_ends));
    }

-- As much fuel as the buffer is long is enough: where the connection goes on, the complete lines of the
-- buffer have been served in order, each answered in the state that the ones before it left, as many as the
-- buffer has line ends, and what it holds now are the bytes behind the last of them, without a complete
-- line. Each of these lines has been sent its reply, unless the connection is a replication link by then.
pub serve_lines-Drained :
    (env : Surroundings) (fuel : ℕ) (s : Server) (c : Client)
    → length c.inbuf ≤ fuel
    → (serve_lines env fuel s c).2 ≡ true
    → Drained env s c (serve_lines env fuel s c).0 (serve_lines env fuel s c).1
unfolding serve_lines serve_all
serve_lines-Drained env zero s c enough = elim (Option-cases (find_line c.inbuf)) [
  | inl e ↦ λ going. Drained-here env s c e
  | inr ((line, more), e) ↦ absurd (omega (arith, (find_line-some c.inbuf line more e).2))
]
serve_lines-Drained env (suc fuel) s c enough = elim (Option-cases (find_line c.inbuf)) [
  | inl e ↦ rw (e, serve_lines) (λ going. Drained-here env s c e)
  | inr ((line, more), e) ↦
      let (one, behind, shorter, lines) = find_line-some c.inbuf line more e in
      let c0 = record c { inbuf = more } in
      let (s', c', go) = serve_line env line s c0 in
      let (same, counted) = serve_line-inbuf env line s c0 in
      rw (e, serve_lines)
        (elim (Bool-cases go) [
          | inr g ↦ rw g (λ stop. absurd (ground (arith, stop)))
          | inl g ↦ rw g (λ going.
              let rest =
                serve_lines-Drained env fuel s' c' (omega (arith, shorter, ap length same)) going in
              record {
                in_order = rest.in_order ∙ served_first env line more s c e g;
                served = omega (arith, rest.served, counted, one, ap line_ends same);
                left = rest.left ∙ ap after_last_end same ∙ sym behind;
                none_left = rest.none_left;
                answered = elim (Bool-cases c.is_replica_link) [
                  | inl l ↦ inl (serve_lines-link env fuel s' c' (serve_line-link env line s c0 l))
                  | inr l ↦ elim rest.answered [
                    | inl link ↦ inl link
                    | inr sent ↦ inr (
                        omega
                          (arith, sent, one, ap line_ends same, serve_line-sent env line s c0 l g))
                  ]
                ];
              })
        ])
]
