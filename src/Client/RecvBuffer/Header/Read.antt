-- ===== src/Client/RecvBuffer/Header/Read.antt =====
-- What `ioHttpResponseHeaderRead` takes off the stream: just the head.
use mathlib.Core.Path.{subst}
use newth.Prelude.{
  c_string, ℕ, ◌+◌, ◌-◌, ◌≤◌, ◌<◌, ◌≡◌, refl, sym, ap, ◌∙◌, inl, inr, Bool-cases, true, false,
  Option, none, some, [], ◌∷◌, ◌++◌, ◌==◌, append_assoc, arith, Bytes, length, length-append, drop,
  drop-append_left, ltb, take_all, split_on, split_on-some, starts_with, cons_fst-some,
}
use newth.Platform.Receive.{Inbound}
use newth.Client.Io.{http_eol}
use newth.Client.RecvBuffer.{
  LengthMode, RecvBuffer, Appended, content, content_of, recv_buffer_fetch,
  recv_buffer_set_length_token, recv_buffer_ditch,
}
use newth.Client.RecvBuffer.Append.Lengths.{arriving, HasRoom}
use newth.Client.RecvBuffer.Search.Fetch.{After, Returns, Holds, recv_buffer_find_and_fetch-Returns}
use newth.Client.RecvBuffer.Header.{
  HeaderError, header_end, HeadRead, cut_header, after_fetch, after_find,
  io_http_response_header_read,
}

-- An error loses no byte. A head that is delivered is what stands before the first empty line of the
-- answer; what is then in the buffer and still to come is what stands behind that line.
abbrev pub TakesHead : RecvBuffer → HeadRead → Type 0
TakesHead self ((some e, header), self') = arriving self' ≡ arriving self
TakesHead self ((none, header), self') =
    (head : Bytes) × (header ≡ head ++ http_eol)
    × (split_on header_end (arriving self) ≡ some (head, header_end ++ arriving self'))

abbrev pub Comes : RecvBuffer → Option HeadRead → Type 0
Comes self none = ⊥
Comes self (some r) = TakesHead self r

starts_with-more : (n s t : Bytes) → starts_with n s ≡ true → starts_with n (s ++ t) ≡ true
unfolding starts_with
starts_with-more [] s t h = refl
starts_with-more (c ∷ n) [] t h = cc
starts_with-more (c ∷ n) (x ∷ s) t h = ground (arith, starts_with-more n s t)

starts_with-less :
    (n s t : Bytes) → length n ≤ length s → starts_with n s ≡ false → starts_with n (s ++ t) ≡ false
unfolding starts_with
starts_with-less [] s t l h = h
starts_with-less (c ∷ n) [] t l h = absurd (omega (arith, l))
starts_with-less (c ∷ n) (x ∷ s) t l h = ground (arith, starts_with-less n s t)

-- What stands behind a text in which `strstr` finds its needle changes nothing.
split_on-more :
    (n s t pre rest : Bytes)
    → split_on n s ≡ some (pre, rest)
    → split_on n (s ++ t) ≡ some (pre, rest ++ t)
unfolding split_on
split_on-more n [] t pre rest h = cc
split_on-more n (x ∷ s) t pre rest h = elim (Bool-cases (starts_with n (x ∷ s))) [
  | inl hit ↦ rw (starts_with-more n (x ∷ s) t hit) (cc (rw hit at h))
  | inr miss ↦
      let (p, found, e) = cons_fst-some x (split_on n s) (rw miss at h) in
      let parts = split_on-some n s found in
      let fits : length n ≤ length (x ∷ s) = omega (
        arith,
        ap length parts.0,
        ap length parts.1,
        length-append p rest,
        length-append n (drop (length n) rest),
      ) in
      rw (starts_with-less n (x ∷ s) t fits miss, split_on-more n s t p rest found, e) refl
]

c_string-prefix : (s : Bytes) → (rest : Bytes) × (s ≡ c_string s ++ rest)
unfolding c_string
c_string-prefix [] = ([], refl)
c_string-prefix (c ∷ s) = elim (Bool-cases (c == 0)) [
  | inl end ↦ (c ∷ s, rw end refl)
  | inr on ↦ let (rest, e) = c_string-prefix s in (rest, rw on (ap (λ t. c ∷ t) e))
]

-- Ditching the first bytes of the data leaves the others.
pub content-recv_buffer_ditch :
    (buffer : Option Bytes) (max : ℕ) (mode : LengthMode) (inbound : Inbound) (first rest : Bytes)
    → 0 < length first
    → content_of buffer ≡ first ++ rest
    → let self : RecvBuffer = record {
      buffer = buffer;
      max = max;
      mode = mode;
      inbound = inbound;
    } in
      (content (recv_buffer_ditch self (length first)) ≡ rest)
      × ((recv_buffer_ditch self (length first)).inbound ≡ inbound)
unfolding recv_buffer_ditch
content-recv_buffer_ditch none max mode inbound first rest pos e =
    absurd (omega (arith, ap length e, pos, length-append first rest))
content-recv_buffer_ditch (some b) max mode inbound first rest pos e =
    let some_bytes : (length first == 0) ≡ false = ground (arith, pos) in
    elim (Bool-cases (ltb (length first) (length b))) [
      | inl less ↦
          rw (some_bytes, less) (ap (drop (length first)) e ∙ drop-append_left first rest, refl)
      | inr all ↦
          rw (some_bytes, all)
            (nothing rest (ground (arith, all, ap length e, length-append first rest)), refl)
    ]
  where
    nothing : (xs : Bytes) → length xs ≡ 0 → [] ≡ xs
    nothing [] q = refl
    nothing (x ∷ xs) q = absurd (omega (arith, q))

regroup : (h m d b : Bytes) → (h ++ (m ++ d)) ++ b ≡ (h ++ m) ++ (d ++ b)
regroup h m d b = simp append_assoc

regroup_behind : (m d b s : Bytes) → (m ++ d) ++ (b ++ s) ≡ m ++ ((d ++ b) ++ s)
regroup_behind m d b s = simp append_assoc

cut_header-TakesHead : (self : RecvBuffer) → TakesHead self (cut_header (content self) self)
unfolding cut_header
cut_header-TakesHead self =
    let (behind, e) = c_string-prefix (content self) in
    by_search behind e (split_on header_end (c_string (content self))) refl
  where
    by_search :
        (behind : Bytes)
        → content self ≡ c_string (content self) ++ behind
        → (o : Option (Bytes × Bytes)) → split_on header_end (c_string (content self)) ≡ o
        → TakesHead self (elim o [
          | none ↦ ((some HeaderError.no_token_found, []), self)
          | some (head, rest) ↦ ((none, head ++ http_eol), recv_buffer_ditch self (length head + 4))
        ])
    by_search behind e none found = refl
    by_search behind e (some (head, rest)) found =
        let parts = split_on-some header_end (c_string (content self)) found in
        let body = drop 4 rest ++ behind in
        let size : length (head ++ header_end) ≡ length head + 4 = length-append head header_end in
        let whole : content self ≡ (head ++ header_end) ++ body =
          e
          ∙ ap (λ t. t ++ behind) (parts.0 ∙ ap (λ t. head ++ t) parts.1)
          ∙ regroup head header_end (drop 4 rest) behind in
        let stream = self.inbound.stream in
        let left = recv_buffer_ditch self (length head + 4) in
        let ditched : (content left ≡ body) × (left.inbound ≡ self.inbound) =
          subst
            (λ n.
              (content (recv_buffer_ditch self n) ≡ body)
              × ((recv_buffer_ditch self n).inbound ≡ self.inbound))
            size
            (content-recv_buffer_ditch self.buffer self.max self.mode self.inbound
              (head ++ header_end) body (subst (λ n. 0 < n) (sym size) (omega arith)) whole) in
        let behind_it : rest ++ (behind ++ stream) ≡ header_end ++ arriving left =
          ap (λ t. t ++ (behind ++ stream)) parts.1
          ∙ regroup_behind header_end (drop 4 rest) behind stream
          ∙ ap (λ t. header_end ++ (t ++ stream)) (sym ditched.0)
          ∙ ap (λ (i : Inbound). header_end ++ (content left ++ i.stream)) (sym ditched.1) in
        (
          head,
          refl,
          ap (λ t. split_on header_end (t ++ stream)) e
              ∙ ap (split_on header_end) (append_assoc (c_string (content self)) behind stream)
              ∙ split_on-more header_end (c_string (content self)) (behind ++ stream) head rest
                  found
              ∙ ap (λ t. some (head, t)) behind_it,
        )

TakesHead-before :
    (a b : RecvBuffer) (r : HeadRead) → arriving b ≡ arriving a → TakesHead b r → TakesHead a r
TakesHead-before a b ((some e, header), s) same h = h ∙ same
TakesHead-before a b ((none, header), s) same h =
    (h.0, h.1, ap (split_on header_end) (sym same) ∙ h.2)

fetched :
    (buffer : Option Bytes) (max : ℕ) (mode : LengthMode) (inbound : Inbound)
    → let self : RecvBuffer = record {
      buffer = buffer;
      max = max;
      mode = mode;
      inbound = inbound;
    } in
      Comes self (after_fetch (recv_buffer_fetch self 0 (length (content self) + 1)) self)
unfolding recv_buffer_fetch after_fetch
fetched none max mode inbound = refl
fetched (some b) max mode inbound =
    let given : (length b + 1 == 0) ≡ false = ground arith in
    let inside : ltb (length b) 0 ≡ false = ground arith in
    let shorter : ltb (length b - 0) (length b + 1) ≡ true = ground arith in
    rw (given, inside, shorter, take_all (length b - 0) b (omega arith))
      (cut_header-TakesHead (record { buffer = some b; max = max; mode = mode; inbound = inbound }))

found_head :
    (self s : RecvBuffer) (m : Option Appended)
    → arriving s ≡ arriving self
    → Returns (After s (Holds header_end)) m
    → Comes self (after_find m)
unfolding after_find
found_head self s none same h = absurd h
found_head self s (some (some e, t)) same h = h.0.kept ∙ same
found_head self s (some (none, t)) same h =
    carry (after_fetch (recv_buffer_fetch t 0 (length (content t) + 1)) t)
      (fetched t.buffer t.max t.mode t.inbound)
  where
    carry : (o : Option HeadRead) → Comes t o → Comes self o
    carry none c = c
    carry (some r) c = TakesHead-before self t r (h.0.kept ∙ same) c

-- With data inside its memory and blocks that are not empty, `ioHttpResponseHeaderRead` returns, whatever
-- the socket answers. With an error no byte is lost. Without one the head it delivers is what stands before
-- the first empty line of the answer, with the end of its last line, and just what stands behind that empty
-- line is then in the buffer and still to come.
pub io_http_response_header_read-Comes :
    (sb_data_size : ℕ) (self : RecvBuffer)
    → 0 < sb_data_size
    → HasRoom self
    → Comes self (io_http_response_header_read sb_data_size self)
unfolding io_http_response_header_read recv_buffer_set_length_token
io_http_response_header_read-Comes sb_data_size self block room =
    let socket = recv_buffer_set_length_token self header_end 4 in
    found_head self socket _ refl (
      recv_buffer_find_and_fetch-Returns sb_data_size socket header_end 4096 block room tt
        (omega arith))
