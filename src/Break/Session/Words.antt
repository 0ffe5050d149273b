-- ===== src/Break/Session/Words.antt =====
-- The command F, as it is taken apart.
use course_code.Base.{
  ℕ, suc, ◌+◌, ◌-◌, ◌≡◌, refl, sym, ap, ◌∙◌, ◌≢◌, true, false, ◌||◌, some, [], ◌∷◌, ◌++◌, ◌==◌, All,
  arith, length, get_or, set, drop, get_or-append, drop-append, set-append, take-length_append,
  append_assoc, length-append,
}
use course_code.Posix.Call.{Bytes}
use course_code.Posix.Libc.{skip_blanks, token_length, Token, strtok}
use course_code.Break.Session.{request, strip, last_byte, parse_request}

-- A byte of a word: no blank, no end of a text.
abbrev pub Printed : ℕ → Type 0
Printed c = (c ≢ 32) × (c ≢ 0)

-- A word ends at a blank or at the end of the text.
token_length-word :
    (word : Bytes) (end : ℕ) (more : Bytes)
    → All Printed word
    → (((end == 32) || (end == 0)) ≡ true)
    → token_length (word ++ (end ∷ more)) ≡ some (length word)
unfolding token_length
token_length-word [] end more h e = rw e
token_length-word (c ∷ word) end more ((blank, zero_byte), h) e =
    let inside : ((c == 32) || (c == 0)) ≡ false = ground arith in
    rw (inside, token_length-word word end more h e)

module _ (front : Bytes) (c : ℕ) (word more : Bytes) (printed : Printed c)
    (all : All Printed word) where
  abbrev at : ℕ → Bytes
  at end = front ++ (c ∷ (word ++ (end ∷ more)))

  begins : (end : ℕ) → drop (length front) (at end) ≡ c ∷ (word ++ (end ∷ more))
  begins end =
      let e : length front + 0 ≡ length front = omega arith in
      let d = drop-append front (c ∷ (word ++ (end ∷ more))) 0 in rw e at d

  ends : (end : ℕ) → get_or (at end) (length front + suc (length word)) 0 ≡ end
  ends end =
      let e : length word + 0 ≡ length word = omega arith in
      let w = get_or-append word (end ∷ more) 0 0 in
      rw (get_or-append front (c ∷ (word ++ (end ∷ more))) (suc (length word)) 0) (rw e at w)

  closed : (end : ℕ) → set (at end) (length front + suc (length word)) 0 ≡ at 0
  closed end =
      let e : length word + 0 ≡ length word = omega arith in
      let w = set-append word (end ∷ more) 0 0 in
      rw (set-append front (c ∷ (word ++ (end ∷ more))) (suc (length word)) 0, rw e at w)

  starts : (end : ℕ) → length front + skip_blanks (drop (length front) (at end)) ≡ length front
  starts end = let first : (c == 32) ≡ false = ground arith in rw (begins end, first) (omega arith)

  -- `strtok` where a word begins: the blank behind it becomes the end of a text.
  strtok-blank :
      strtok (at 32) (length front)
      ≡ some (record {
        buf = at 0;
        next = length front + suc (length word) + 1;
        start = length front;
        token = some (c ∷ word);
      })
  unfolding strtok
  strtok-blank =
      let size : token_length (c ∷ (word ++ (32 ∷ more))) ≡ some (suc (length word)) =
        token_length-word (c ∷ word) 32 more (printed, all) refl in
      rw (
        strtok,
        starts 32,
        begins 32,
        size,
        starts 32,
        begins 32,
        ends 32,
        closed 32,
        take-length_append word (32 ∷ more),
      )

  -- The last word, in front of the end of the text.
  strtok-end :
      strtok (at 0) (length front)
      ≡ some (record {
        buf = at 0;
        next = length front + suc (length word);
        start = length front;
        token = some (c ∷ word);
      })
  unfolding strtok
  strtok-end =
      let size : token_length (c ∷ (word ++ (0 ∷ more))) ≡ some (suc (length word)) =
        token_length-word (c ∷ word) 0 more (printed, all) refl in
      rw (
        strtok,
        starts 0,
        begins 0,
        size,
        starts 0,
        begins 0,
        ends 0,
        take-length_append word (0 ∷ more),
      )

last_byte-append : (word : Bytes) (end : ℕ) → last_byte (word ++ (end ∷ [])) ≡ end
last_byte-append word end =
    let e : length word + 0 ≡ length (word ++ (end ∷ [])) - 1 =
      omega (arith, length-append word (end ∷ [])) in
    let g = get_or-append word (end ∷ []) 0 0 in rw e at g

parse_request-steps :
    (buf : Bytes) (t1 t2 t3 : Token) (path port : Bytes)
    → strtok buf 0 ≡ some t1
    → strtok t1.buf t1.next ≡ some t2
    → strtok t2.buf t2.next ≡ some t3
    → t2.token ≡ some path
    → t3.token ≡ some port
    → parse_request buf ≡ strip t3.buf t3.start path port
unfolding parse_request
parse_request-steps buf t1 t2 t3 path port e1 e2 e3 p q = rw (parse_request, e1, e2, e3, p, q)

Printed-newline : (word : Bytes) → All Printed word → All Printed (word ++ (b'\n' ∷ []))
Printed-newline [] h = (((λ e. absurd (omega arith)), (λ e. absurd (omega arith))), tt)
Printed-newline (c ∷ word) (first, h) = (first, Printed-newline word h)

-- The newline behind the port becomes the end of a text.
strip-newline :
    (front : Bytes) (t : ℕ) (port path stale : Bytes)
    → strip
        (front ++ (t ∷ ((port ++ (b'\n' ∷ [])) ++ (0 ∷ stale))))
        (length front)
        path
        (t ∷ (port ++ (b'\n' ∷ [])))
      ≡ request
          (record { left = front ++ (t ∷ (port ++ (0 ∷ 0 ∷ stale))); path = path; port = t ∷ port })
strip-newline front t port path stale =
    let size : length front + suc (length (port ++ (b'\n' ∷ []))) - 1
        ≡ length front + suc (length port) =
      omega (arith, length-append port (b'\n' ∷ [])) in
    let word : suc (length (port ++ (b'\n' ∷ []))) - 1 ≡ suc (length port) =
      omega (arith, length-append port (b'\n' ∷ [])) in
    let last = last_byte-append (t ∷ port) b'\n' in
    let zero_plus : length port + 0 ≡ length port = omega arith in
    let inner = set-append port (b'\n' ∷ 0 ∷ stale) 0 0 in
    let outer = set-append front (t ∷ (port ++ (b'\n' ∷ 0 ∷ stale))) (suc (length port)) 0 in
    let inner' = (rw zero_plus at inner) in
    rw (append_assoc, last, size, outer, inner', word, take-length_append port (b'\n' ∷ [])) refl

module _ (p : ℕ) (path : Bytes) (t : ℕ) (port stale : Bytes) (hp : Printed p)
    (hpath : All Printed path) (ht : Printed t) (hport : All Printed port) where
  abbrev rest : Bytes
  rest = t ∷ (port ++ (b'\n' ∷ 0 ∷ stale))

  abbrev front : Bytes
  front = b'F' ∷ 0 ∷ p ∷ (path ++ (0 ∷ []))

  abbrev last_token : Token
  last_token = record {
    buf = front ++ (t ∷ ((port ++ (b'\n' ∷ [])) ++ (0 ∷ stale)));
    next = length front + suc (length (port ++ (b'\n' ∷ [])));
    start = length front;
    token = some (t ∷ (port ++ (b'\n' ∷ [])));
  }

  third : strtok (b'F' ∷ 0 ∷ p ∷ (path ++ (0 ∷ rest))) (2 + suc (length path) + 1) ≡ some last_token
  third =
      let s = strtok-end front t (port ++ (b'\n' ∷ [])) stale ht (Printed-newline port hport) in
      let here : length front ≡ 2 + suc (length path) + 1 =
        omega (arith, length-append path (0 ∷ [])) in
      let text : b'F' ∷ 0 ∷ p ∷ (path ++ (0 ∷ rest)) ≡ last_token.buf =
        rw (append_assoc path (0 ∷ []), append_assoc port (b'\n' ∷ [])) in
      rw (text, sym here) s

  -- The request "F path port" with a newline and the end of the text, and any bytes behind it in the
  -- buffer, gives that path and that port, for every path and port of one or more bytes with no blank.
  -- The buffer keeps the words, each with the end of a text behind it.
  pub parse_request-line :
      parse_request (b'F' ∷ 32 ∷ p ∷ (path ++ (32 ∷ rest)))
      ≡ request (record {
        left = b'F' ∷ 0 ∷ p ∷ (path ++ (0 ∷ t ∷ (port ++ (0 ∷ 0 ∷ stale))));
        path = p ∷ path;
        port = t ∷ port;
      })
  parse_request-line =
      let one =
        strtok-blank [] b'F' [] (p ∷ (path ++ (32 ∷ rest)))
          ((λ e. absurd (omega arith)), (λ e. absurd (omega arith))) tt in
      let two = strtok-blank (b'F' ∷ 0 ∷ []) p path rest hp hpath in
      let steps =
        parse_request-steps _ _ _ last_token (p ∷ path) (t ∷ (port ++ (b'\n' ∷ []))) one two third
          refl refl in
      let s = strip-newline front t port (p ∷ path) stale in
      let left : front ++ (t ∷ (port ++ (0 ∷ 0 ∷ stale)))
          ≡ b'F' ∷ 0 ∷ p ∷ (path ++ (0 ∷ t ∷ (port ++ (0 ∷ 0 ∷ stale)))) =
        rw append_assoc in
      steps ∙ s ∙ ap (λ l. request (record { left = l; path = p ∷ path; port = t ∷ port })) left
