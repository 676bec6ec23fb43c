-- ===== src/Fault/Body/Truncation.antt =====
-- What a body delivers over any sequence of calls of `Read`.
use native.Mathlib.Decide.{dec_lt}
use mathlib.Core.List.{append-nil, append_assoc}
use faultline.Common.{
  ℕ, ◌+◌, ◌≤◌, ◌<◌, true, Option, none, some, List, [], ◌∷◌, ◌++◌, Text, ◌==◌, string_eq, nat_eq,
  min, length, length-append, ◌≡◌, refl, ap, ◌∙◌, arith, Bool-cases, Option-cases, inl, inr,
}
use faultline.Common.Int.{pos}
use faultline.Config.Model.{Fault}
use faultline.Fault.Builtin.{Failure}
use faultline.Fault.Body.{
  Reader, Body, Call, Delivery, wrap_body, limit_of, probed, read_truncated, read, and_then,
  read_all,
}

-- `consumed` is what was read from the source so far.
pub record Tracks {S : Type 0} (reader : Reader S) (consumed : S → Text) : Type 0 where
  pub step : (n : ℕ) (s : S) → consumed (reader.read n s).2 ≡ consumed s ++ (reader.read n s).0

module _ {S : Type 0} (reader : Reader S) (consumed : S → Text) (t : Tracks reader consumed) where
  -- From `b` to `b'` the bytes `d` were delivered: they are the next of the source and count against the
  -- limit, and behind them were taken only the bytes that showed that there was more.
  pub record Truncates (b : Body S) (d : Text) (b' : Body S) : Type 0 where
    pub probed : Text
    pub prefix : consumed b'.source ≡ consumed b.source ++ (d ++ probed)
    pub counted : length d + b'.remaining ≡ b.remaining
    pub told : b'.applied ≡ b.applied + length probed
    pub exhausted : 0 < length probed → b'.remaining ≡ 0
    pub same : b'.action ≡ b.action

  Truncates-refl :
      (b b' : Body S)
      → b'.source ≡ b.source
      → b'.remaining ≡ b.remaining
      → b'.applied ≡ b.applied
      → b'.action ≡ b.action
      → Truncates b [] b'
  Truncates-refl b b' e₁ e₂ e₃ e₄ = record {
    probed = [];
    prefix = rw append-nil (ap consumed e₁);
    counted = omega arith;
    told = omega arith;
    exhausted = λ h. absurd (omega arith);
    same = e₄;
  }

  probed-Truncates :
      (b : Body S) (r : Text × Option Failure × S)
      → consumed r.2 ≡ consumed b.source ++ r.0
      → length r.0 ≤ 1
      → b.remaining ≡ 0
      → Truncates b (probed b r).0 (probed b r).2
  unfolding probed
  probed-Truncates b ([], error, source) e h z = record {
    probed = [];
    prefix = e;
    counted = omega arith;
    told = omega arith;
    exhausted = λ h. absurd (omega arith);
    same = refl;
  }
  probed-Truncates b (x ∷ xs, error, source) e h z = record {
    probed = x ∷ xs;
    prefix = e;
    counted = omega arith;
    told = omega arith;
    exhausted = λ h. z;
    same = refl;
  }

  read_truncated-Truncates :
      (b : Body S) (size : ℕ)
      → Truncates b (read_truncated reader b size).0 (read_truncated reader b size).2
  unfolding read_truncated
  read_truncated-Truncates b size = elim (Bool-cases (b.remaining == 0)) [
    | inl spent ↦ rw spent (
        probed-Truncates b (reader.read 1 b.source) (t.step 1 b.source) (reader.bounded 1 b.source)
          (ground arith))
    | inr left ↦ rw left (record {
      probed = [];
      prefix = rw append-nil (t.step (min size b.remaining) b.source);
      counted = omega (arith, reader.bounded (min size b.remaining) b.source);
      told = omega arith;
      exhausted = λ h. absurd (omega arith);
      same = refl;
    })
  ]

  length-zero : (s : Text) → length s ≡ 0 → s ≡ []
  length-zero [] h = refl
  length-zero (c ∷ cs) h = absurd (omega arith)

  -- Bytes that were only probed have none delivered behind them.
  swap_probed : (p d q : Text) → (0 < length p → d ≡ []) → p ++ (d ++ q) ≡ d ++ (p ++ q)
  swap_probed [] d q h = refl
  swap_probed (c ∷ cs) d q h = rw (h (omega arith))

  Truncates-trans :
      {b b' b'' : Body S} {d d' : Text}
      → Truncates b d b'
      → Truncates b' d' b''
      → Truncates b (d ++ d') b''
  Truncates-trans {b} {b'} {b''} {d} {d'} x y = record {
    probed = x.probed ++ y.probed;
    prefix =
        y.prefix
        ∙ ap (λ (s : Text). s ++ (d' ++ y.probed)) x.prefix
        ∙ simp append_assoc (
            ap (λ (s : Text). consumed b.source ++ (d ++ s))
              (swap_probed x.probed d' y.probed nothing));
    counted = omega (arith, x.counted, y.counted, length-append d d');
    told = omega (arith, x.told, y.told, length-append x.probed y.probed);
    exhausted = λ h. elim (dec_lt 0 (length y.probed)) [
      | yes p ↦ y.exhausted p
      | no n ↦
          omega (arith, x.exhausted (omega (arith, length-append x.probed y.probed)), y.counted)
    ];
    same = y.same ∙ x.same;
  }
    where
      nothing : 0 < length x.probed → d' ≡ []
      nothing h = length-zero d' (omega (arith, x.exhausted h, y.counted))

  read-Truncates :
      (b : Body S) (c : Call)
      → (b.action.action == "truncate") ≡ true
      → (r : Delivery S) × (read reader b c ≡ some r) × Truncates b r.0 r.2
  unfolding read
  read-Truncates b c h = elim (Bool-cases (c.size == 0)) [
    | inl e ↦ (([], none, b), rw e refl, Truncates-refl b b refl refl refl refl)
    | inr n ↦ elim (Option-cases c.context_err) [
      | inl fine ↦ (
        read_truncated reader b c.size,
        rw n (rw (fine, read) (rw h refl)),
        read_truncated-Truncates b c.size,
      )
      | inr (e, q) ↦
          (([], some e, b), rw n (rw (q, read) refl), Truncates-refl b b refl refl refl refl)
    ]
  ]

  read_all-Truncates :
      (b : Body S) (calls : List Call)
      → (b.action.action == "truncate") ≡ true
      → (r : Text × Body S) × (read_all reader b calls ≡ some r) × Truncates b r.0 r.1
  unfolding read_all
  read_all-Truncates b [] h = (([], b), refl, Truncates-refl b b refl refl refl refl)
  read_all-Truncates b (c ∷ calls) h =
      let (r, q, x) = read-Truncates b c h in
      let (r', q', y) = read_all-Truncates r.2 calls (rw x.same h) in
      ((r.0 ++ r'.0, r'.1), rw (q, read_all) (rw (q', and_then) refl), Truncates-trans x y)

  -- A body wrapped to truncate at `limit` answers every sequence of calls, whatever their buffers and the
  -- context. What it delivers is the next bytes of the source, never more than `limit` of them; it takes a
  -- byte more only to see that there is one, when `limit` bytes were delivered, and tells the observer once
  -- for each such byte.
  pub read_all_truncation :
      (source : S) (f : Fault) (limit : ℕ) (calls : List Call)
      → (f.action == "truncate") ≡ true
      → f.bytes ≡ some (pos limit)
      → (r : Text × Body S) × (read_all reader (wrap_body source f) calls ≡ some r)
        × (length r.0 ≤ limit)
        × ((probed : Text) × (consumed r.1.source ≡ consumed source ++ (r.0 ++ probed))
            × (r.1.applied ≡ length probed)
            × (0 < length probed → length r.0 ≡ limit))
  unfolding wrap_body
  read_all_truncation source f limit calls h e =
      let (r, q, x) = read_all-Truncates (wrap_body source f) calls h in
      let start : limit_of f.bytes ≡ limit = rw e refl in
      (
        r,
        q,
        omega (arith, x.counted, start),
        (
          x.probed,
          x.prefix,
          omega (arith, x.told),
          λ p. omega (arith, x.counted, x.exhausted p, start),
        ),
      )
