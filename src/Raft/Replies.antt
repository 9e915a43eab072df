-- ===== src/Raft/Replies.antt =====
-- The reply lines of src/raft.cpp and the reading of them.
use redon.Prelude.{
  ℕ, ◌^◌, ◌<◌, ◌≡◌, refl, ap, ◌∙◌, Bool, true, false, Bytes, [], ◌∷◌, some, codes, cons-ne-nil,
  bytes_eq, bytes_eq_refl,
}
use redon.Text.{is_space}
use redon.Text.Integer.{ℤ, pos}
use redon.Text.Integer.RoundTrip.{Every-Digits, stol-to_string}
use redon.Text.Decimal.{to_string}
use redon.Text.Decimal.RoundTrip.{to_string-ne-nil, to_string-Digits}
use redon.Text.Address.{tokens}
use redon.Text.Address.Words.{Plain, tokens_three}
use redon.Raft.{
  RaftNode, Moment, flag_text, request_vote, append_entries, handle_request_vote,
  handle_append_entries,
}
use redon.Raft.Election.{read_reply}

flag_Plain : (b : Bool) → Plain (flag_text b)
unfolding is_space
flag_Plain true = (cons-ne-nil _ _, (refl, tt))
flag_Plain false = (cons-ne-nil _ _, (refl, tt))

number_Plain : (n : ℕ) → Plain (to_string n)
number_Plain n = (to_string-ne-nil n, Every-Digits (to_string n) (to_string-Digits n))

read_words :
    (tag : Bytes) (term : ℕ) (b : Bool)
    → term < 2 ^ 63
    → read_reply tag (tag ∷ to_string term ∷ flag_text b ∷ [])
      ≡ some (record { term = pos term; flag = b })
unfolding read_reply bytes_eq
read_words tag term true h = rw (bytes_eq_refl tag, stol-to_string term h) refl
read_words tag term false h = rw (bytes_eq_refl tag, stol-to_string term h) refl

-- The candidate reads off the reply line what the voter decided and the term that it is in, below the
-- bound of a `long`.
pub read_reply-handle_request_vote :
    (term : ℤ) (candidate_id : Bytes) (m : Moment) (n : RaftNode)
    → (request_vote term candidate_id m n).0.current_term < 2 ^ 63
    → read_reply (codes "__VOTE__") (tokens (handle_request_vote term candidate_id m n).1)
      ≡ some (record {
        term = pos (request_vote term candidate_id m n).0.current_term;
        flag = (request_vote term candidate_id m n).1;
      })
unfolding handle_request_vote tokens is_space
read_reply-handle_request_vote term candidate_id m n h =
    let (n', granted) = request_vote term candidate_id m n in
    ap (read_reply (codes "__VOTE__")) (
      tokens_three _ (codes "__VOTE__") (to_string n'.current_term) (flag_text granted)
        (cons-ne-nil _ _, (refl, (refl, (refl, (refl, (refl, (refl, (refl, (refl, tt)))))))))
        (number_Plain n'.current_term) (flag_Plain granted))
    ∙ read_words (codes "__VOTE__") n'.current_term granted h

-- The leader reads off the reply to a heartbeat whether it was accepted and the term of the follower.
pub read_reply-handle_append_entries :
    (term : ℤ) (leader_id : Bytes) (m : Moment) (n : RaftNode)
    → (append_entries term leader_id m n).0.current_term < 2 ^ 63
    → read_reply (codes "__APPENDED__") (tokens (handle_append_entries term leader_id m n).1)
      ≡ some (record {
        term = pos (append_entries term leader_id m n).0.current_term;
        flag = (append_entries term leader_id m n).1;
      })
unfolding handle_append_entries tokens is_space
read_reply-handle_append_entries term leader_id m n h =
    let (n', success) = append_entries term leader_id m n in
    ap (read_reply (codes "__APPENDED__")) (
      tokens_three _ (codes "__APPENDED__") (to_string n'.current_term) (flag_text success)
        (
          cons-ne-nil _ _,
          (
            refl,
            (
              refl,
              (refl, (refl, (refl, (refl, (refl, (refl, (refl, (refl, (refl, (refl, tt)))))))))),
            ),
          ),
        )
        (number_Plain n'.current_term) (flag_Plain success))
    ∙ read_words (codes "__APPENDED__") n'.current_term success h
