-- ===== src/Tcp/Ending.antt =====
-- internal/transport/tcp/server.go: the loop of a connection comes to an end.
use cossacks_game_server.Base.{
  ℕ, zero, suc, ◌+◌, ◌-◌, ◌<◌, ◌≤◌, Bool, true, false, none, some, [], ◌∷◌, Bytes, if◌then◌else◌,
  length, take, drop, ltb, ◌&&◌, ◌++◌, length-drop, ◌≡◌, ◌≢◌, refl, arith, ◌⊎◌, inl, inr, ap, sym,
  ◌∙◌,
}
use cossacks_game_server.Base.Result.{bind_ok, result_cases, Result, ok, err, ok-injective, ◌>>=◌}
use cossacks_game_server.Base.LittleEndian.{get_le}
use cossacks_game_server.Wire.Command.{CommandSet}
use cossacks_game_server.Wire.Binary.{Error, request_too_large}
use cossacks_game_server.Wire.Stream.{
  Zlib, Stream, Failure, read_from, read_full, read_rest, check_size, unmarshal_stream,
  with_failure, panic, failed,
}
use cossacks_game_server.Gsc.Connectivity.{Connection}
use cossacks_game_server.Gsc.Commands.{HandleResult}
use cossacks_game_server.Tcp.{
  Request, Link, Turn, Reason, read_failed, ended, next, split_args, respond, dispatch_request,
  turn, serve,
}

with_failure_ok : {A : Type 0} (x : Result Error A) (a : A) → with_failure x ≡ ok a → x ≡ ok a
with_failure_ok (ok b) a h = ap ok (ok-injective h)
with_failure_ok (err e) a h = ground arith

guard_ok :
    {E A : Type 0} (b : Bool) (e : E) (x : Result E A) (a : A)
    → (if b then err e else x) ≡ ok a
    → x ≡ ok a
guard_ok true e x a h = ground arith
guard_ok false e x a h = h

read_full-length :
    (n : ℕ) (r head rest : Bytes) → read_full n r ≡ ok (head, rest) → length rest + n ≡ length r
unfolding read_full
read_full-length n r head rest h = ground (arith, length-drop n r)

check_size_ok :
    {A : Type 0} (max_size size : ℕ) (x : Result Failure A) (a : A)
    → check_size max_size size x ≡ ok a
    → x ≡ ok a
unfolding check_size
check_size_ok max_size size x a h =
    guard_ok (ltb 0 max_size && ltb max_size size) (failed (request_too_large size)) x a h

module _ (z : Zlib) where
  read_rest-length :
      (size : ℕ) (head r : Bytes) (s : Stream) (rest : Bytes)
      → read_rest z size head r ≡ ok (s, rest)
      → length rest ≤ length r
  unfolding read_rest
  read_rest-length size head r s rest h =
      let parse : Bytes × Bytes → Result Failure (Stream × Bytes) =
        λ x. with_failure (unmarshal_stream z (head ++ x.0)) >>= λ t. ok (t, x.1) in
      let body : Result Failure (Bytes × Bytes) = with_failure (read_full (size - 12) r) in
      let (x, e, h') =
        bind_ok body parse (s, rest) (guard_ok (ltb size 12) panic (body >>= parse) (s, rest) h) in
      let (t, e', h'') =
        bind_ok (with_failure (unmarshal_stream z (head ++ x.0))) (λ t. ok (t, x.1)) (s, rest) h' in
      let n = read_full-length (size - 12) r x.0 x.1 (with_failure_ok _ x e) in
      let same : x.1 ≡ rest = ap (λ p. p.1) (ok-injective h'') in omega (arith, n, ap length same)

  -- A frame takes its header at least.
  read_from-length :
      (max_size : ℕ) (r : Bytes) (s : Stream) (rest : Bytes)
      → read_from z max_size r ≡ ok (s, rest)
      → length rest + 12 ≤ length r
  unfolding read_from
  read_from-length max_size r s rest h =
      let size : Bytes → ℕ = λ head. get_le (take 4 (drop 4 head)) in
      let (x, e, h') =
        bind_ok (with_failure (read_full 12 r))
          (λ x. check_size max_size (size x.0) (read_rest z (size x.0) x.0 x.1)) (s, rest) h in
      let n = read_full-length 12 r x.0 x.1 (with_failure_ok (read_full 12 r) x e) in
      let m =
        read_rest-length (size x.0) x.0 x.1 s rest
          (check_size_ok max_size (size x.0) (read_rest z (size x.0) x.0 x.1) (s, rest) h') in
      omega (arith, n, m)

turn_cases :
    {W : Type 0} (t : Turn W)
    → ((reason : Reason) × (l : Link W) × (t ≡ ended reason l)) ⊎ ((l : Link W) × (t ≡ next l))
turn_cases (ended reason l) = inl (reason, l, refl)
turn_cases (next l) = inr (l, refl)

either_input :
    {W : Type 0} (b : Bool) (t u : Turn W) (l : Link W) (rest : Bytes)
    → (t ≡ next l → l.input ≡ rest)
    → (u ≡ next l → l.input ≡ rest)
    → (if b then t else u) ≡ next l
    → l.input ≡ rest
either_input true t u l rest f g h = f h
either_input false t u l rest f g h = g h

module _ {W : Type 0} (z : Zlib) (max_size : ℕ)
    (handle : W → Connection → Stream → (name : Bytes) → Request → W × Connection × HandleResult)
    (on_disconnect : W → Connection → W) (takes : (sent bin : Bytes) → Bool) where
  respond-input :
      (l l' : Link W) (req : Stream) (win : Bytes) (commands : CommandSet)
      → respond z max_size handle on_disconnect takes l req win commands ≡ next l'
      → l'.input ≡ l.input
  unfolding respond
  respond-input l l' req win commands h = ground arith

  dispatch_request-input :
      (l l' : Link W) (req : Stream) (rest : Bytes) (commands : CommandSet)
      → dispatch_request z max_size handle on_disconnect takes l req rest commands ≡ next l'
      → l'.input ≡ rest
  unfolding dispatch_request
  dispatch_request-input l l' req rest [] h = ground arith
  dispatch_request-input l l' req rest (cmd ∷ more) h =
      let request = split_args cmd.args in
      let (w, conn, result) = handle l.world l.conn req cmd.name request in
      let l1 : Link W = record { world = w; conn = conn; sent = l.sent; input = rest } in
      either_input result.has_response
        (respond z max_size handle on_disconnect takes l1 req request.win result.commands) (next l1)
        l' rest (respond-input l1 l' req request.win result.commands) (λ same. ground arith) h

  turn-input :
      (l l' : Link W)
      → turn z max_size handle on_disconnect takes l ≡ next l'
      → length l'.input + 12 ≤ length l.input
  unfolding turn
  turn-input l l' h = elim (result_cases (read_from z max_size l.input)) [
    | inl (f, e) ↦
        let stop : turn z max_size handle on_disconnect takes l ≡ ended (read_failed f) l =
          rw (e, turn) refl in
        ground arith
    | inr ((req, rest), e) ↦
        let go : turn z max_size handle on_disconnect takes l
            ≡ dispatch_request z max_size handle on_disconnect takes l req rest req.cmd_set =
          rw (e, turn) refl in
        omega (
          arith,
          read_from-length z max_size l.input req rest e,
          ap length (dispatch_request-input l l' req rest req.cmd_set (sym go ∙ h)),
        )
  ]

  -- The loop of a connection ends: with a unit of fuel for each byte that the socket will yield,
  -- and one more, it returns, whatever the handler does.
  pub serve-ends :
      (fuel : ℕ) (l : Link W)
      → length l.input < fuel
      → serve z max_size handle on_disconnect takes fuel l ≢ none
  unfolding serve
  serve-ends zero l h e = ground arith
  serve-ends (suc fuel) l h e = elim (turn_cases (turn z max_size handle on_disconnect takes l)) [
    | inl (reason, l', t) ↦
        let stop : serve z max_size handle on_disconnect takes (suc fuel) l
            ≡ some (reason, record l' { world = on_disconnect l'.world l'.conn }) =
          rw (t, serve) refl in
        ground arith
    | inr (l', t) ↦
        let go : serve z max_size handle on_disconnect takes (suc fuel) l
            ≡ serve z max_size handle on_disconnect takes fuel l' =
          rw (t, serve) refl in
        serve-ends fuel l' (omega (arith, turn-input l l' t)) (sym go ∙ e)
  ]
