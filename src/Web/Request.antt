-- ===== src/Web/Request.antt =====
-- How src/web.cpp reads a request in the pieces that the network gives.
use mathlib.Core.List.{flatten}
use mathlib.Core.Option.{some-injective}
use redon.Prelude.{
  ℕ, ◌+◌, ◌≤◌, ◌<◌, ◌≡◌, refl, ap, sym, ◌∙◌, true, Bytes, List, [], ◌∷◌, ◌++◌, append_assoc,
  append-nil, Option, none, some, arith, codes, bytes_eq, ltb, Bool-cases, Option-cases, inl, inr,
  length, length-append, take, drop, take-append_le, drop-append_le, length-drop,
}
use redon.Router.{Dial}
use redon.Web.{
  WebGateway, max_request, split_head, Headers, got, closed, too_large, read_head, read_body,
  request_line, parse_content_length, route, handle_connection,
}

ltb_lt : (a b : ℕ) → ltb a b ≡ true → a < b
ltb_lt a b e = ground arith

abbrev blank_line : Bytes
blank_line = codes "\r\n\r\n"

length-blank_line : (l : Bytes) → bytes_eq (take 4 l) blank_line ≡ true → 4 ≤ length l
unfolding bytes_eq
length-blank_line [] e = absurd (ground arith)
length-blank_line (a ∷ []) e = absurd (ground arith)
length-blank_line (a ∷ b ∷ []) e = absurd (ground arith)
length-blank_line (a ∷ b ∷ c ∷ []) e = absurd (ground arith)
length-blank_line (a ∷ b ∷ c ∷ d ∷ l) e = omega arith

length-split_head : (s : Bytes) (r : Bytes × Bytes) → split_head s ≡ some r → 4 ≤ length s
unfolding split_head
length-split_head [] r = λ e. absurd (ground arith)
length-split_head (c ∷ s) r = elim (Bool-cases (bytes_eq (take 4 (c ∷ s)) blank_line)) [
  | inl here ↦ λ e. length-blank_line (c ∷ s) here
  | inr not_here ↦ elim (Option-cases (split_head s)) [
    | inl z ↦ rw (not_here, z, split_head) (λ e. absurd (ground arith))
    | inr (q, z) ↦ λ e. omega (arith, length-split_head s q z)
  ]
]

length_body-split_head :
    (s head body : Bytes) → split_head s ≡ some (head, body) → length body ≤ length s
unfolding split_head
length_body-split_head [] head body = λ e. absurd (ground arith)
length_body-split_head (c ∷ s) head body =
    elim (Bool-cases (bytes_eq (take 4 (c ∷ s)) blank_line)) [
      | inl here ↦ rw here (λ e. omega (
        arith,
        length-drop 4 (c ∷ s),
        ap length (ap (λ r. r.1) (some-injective ([], drop 4 (c ∷ s)) (head, body) e)),
      ))
      | inr not_here ↦ elim (Option-cases (split_head s)) [
        | inl z ↦ rw (not_here, z, split_head) (λ e. absurd (ground arith))
        | inr ((h, b), z) ↦
            rw (not_here, z, split_head) (λ e. ground (arith, length_body-split_head s h b z))
      ]
    ]

-- More bytes do not move the first blank line.
split_head-append :
    (s t head body : Bytes)
    → split_head s ≡ some (head, body)
    → split_head (s ++ t) ≡ some (head, body ++ t)
unfolding split_head
split_head-append [] t head body = λ e. absurd (ground arith)
split_head-append (c ∷ s) t head body = elim (Bool-cases (bytes_eq (take 4 (c ∷ s)) blank_line)) [
  | inl here ↦
      let long = length-blank_line (c ∷ s) here in
      let same = take-append_le 4 (c ∷ s) t long in
      let rest = drop-append_le 4 (c ∷ s) t long in rw (here, same, rest, here) (λ e. ground arith)
  | inr not_here ↦ elim (Option-cases (split_head s)) [
    | inl z ↦ rw (not_here, z, split_head) (λ e. absurd (ground arith))
    | inr ((h, b), z) ↦
        let same = take-append_le 4 (c ∷ s) t (omega (arith, length-split_head s (h, b) z)) in
        rw (not_here, z, same, not_here, split_head-append s t h b z) (λ e. ground arith)
  ]
]

read_body-take :
    (size : ℕ) (body : Bytes) (chunks : List Bytes)
    → length body + length (flatten chunks) ≤ max_request
    → take size (read_body size body chunks) ≡ take size (body ++ flatten chunks)
unfolding read_body flatten
read_body-take size body [] fits = ap (take size) (sym (append-nil body))
read_body-take size body (chunk ∷ chunks) fits = elim (Bool-cases (ltb (length body) size)) [
  | inl e ↦ rw e (elim (Bool-cases (ltb max_request (length (body ++ chunk)))) [
    | inl large ↦ absurd (
        omega (
          arith,
          ltb_lt max_request (length (body ++ chunk)) large,
          length-append body chunk,
          length-append chunk (flatten chunks),
        ))
    | inr small ↦ rw small (
        read_body-take size (body ++ chunk) chunks
          (omega (arith, length-append body chunk, length-append chunk (flatten chunks)))
        ∙ ap (take size) (append_assoc body chunk (flatten chunks)))
  ])
  | inr e ↦ rw e (sym (take-append_le size body (chunk ++ flatten chunks) (ground arith)))
]

-- What the headers are, if the pieces stay within the limit.
abbrev Reads : Bytes → List Bytes → Headers → Type 0
Reads buf chunks (got head body more) =
    split_head (buf ++ flatten chunks) ≡ some (head, body ++ flatten more)
Reads buf chunks closed = split_head (buf ++ flatten chunks) ≡ none
Reads buf chunks too_large = ⊥

Reads-shift :
    (buf chunk : Bytes) (chunks : List Bytes) (h : Headers)
    → Reads (buf ++ chunk) chunks h
    → Reads buf (chunk ∷ chunks) h
unfolding flatten
Reads-shift buf chunk chunks (got head body more) r =
    ap split_head (sym (append_assoc buf chunk (flatten chunks))) ∙ r
Reads-shift buf chunk chunks closed r =
    ap split_head (sym (append_assoc buf chunk (flatten chunks))) ∙ r
Reads-shift buf chunk chunks too_large r = r

read_head-Reads :
    (buf : Bytes) (chunks : List Bytes)
    → length buf + length (flatten chunks) ≤ max_request
    → Reads buf chunks (read_head buf chunks)
unfolding read_head flatten
read_head-Reads buf [] fits = elim (Option-cases (split_head buf)) [
  | inl z ↦ rw (z, read_head) (ap split_head (append-nil buf) ∙ z)
  | inr ((head, body), z) ↦
      rw (z, read_head)
        (ap split_head (append-nil buf) ∙ z ∙ ap (λ b. some (head, b)) (sym (append-nil body)))
]
read_head-Reads buf (chunk ∷ chunks) fits = elim (Option-cases (split_head buf)) [
  | inr ((head, body), z) ↦
      rw (z, read_head) (split_head-append buf (chunk ++ flatten chunks) head body z)
  | inl z ↦ elim (Bool-cases (ltb max_request (length (buf ++ chunk)))) [
    | inl large ↦ absurd (
        omega (
          arith,
          ltb_lt max_request (length (buf ++ chunk)) large,
          length-append buf chunk,
          length-append chunk (flatten chunks),
        ))
    | inr small ↦
        rw (z, read_head, small)
          (Reads-shift buf chunk chunks (read_head (buf ++ chunk) chunks) (
            read_head-Reads (buf ++ chunk) chunks
              (omega (arith, length-append buf chunk, length-append chunk (flatten chunks)))))
  ]
]

-- The response to a request that is read whole, at once.
abbrev pub respond : Dial → WebGateway → Option (Bytes × Bytes) → Option Bytes
respond dial g none = none
respond dial g (some (head, behind)) =
    let (method, path) = request_line head in
    some (route dial g method path (take (parse_content_length head) behind))

responded :
    (dial : Dial) (g : WebGateway) (chunks : List Bytes) (h : Headers)
    → read_head [] chunks ≡ h
    → length (flatten chunks) ≤ max_request
    → Reads [] chunks h
    → handle_connection dial g chunks ≡ respond dial g (split_head (flatten chunks))
unfolding handle_connection
responded dial g chunks (got head first more) e fits r =
    rw (e, handle_connection, r)
      (let size = parse_content_length head in
        let room = length_body-split_head (flatten chunks) head (first ++ flatten more) r in
        ap (λ body. some (route dial g (request_line head).0 (request_line head).1 body))
          (read_body-take size first more
            (omega (arith, room, length-append first (flatten more)))))
responded dial g chunks closed e fits r = rw (e, handle_connection, r) refl
responded dial g chunks too_large e fits r = absurd r

-- A request of at most the limit, headers and body together, is answered by what its bytes are,
-- however the network cuts them into pieces: by the first two words of its head and as much of the
-- bytes behind the first blank line as the headers announce. Without a blank line nothing is sent.
pub handle_connection-flatten :
    (dial : Dial) (g : WebGateway) (chunks : List Bytes)
    → length (flatten chunks) ≤ max_request
    → handle_connection dial g chunks ≡ respond dial g (split_head (flatten chunks))
handle_connection-flatten dial g chunks fits =
    responded dial g chunks (read_head [] chunks) refl fits
      (read_head-Reads [] chunks (omega arith))
