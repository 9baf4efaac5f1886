-- ===== src/Novasm/Serialization/Parsed.antt =====
-- Inversion of the readers: what a reader accepts is what the writers produce.
use novus.Base.{
  ℕ, zero, suc, ◌≡◌, refl, ap, sym, ◌∙◌, List, [], ◌∷◌, ◌++◌, append_assoc, append-nil, arith,
  length, All, Option, none, some, Option-cases, inl, inr,
}
use novus.Novasm.Executable.{IsByte, IsU32, IsText, Bytes}
use novus.Novasm.Serialization.{
  Reader, ◌>>=◌, read_uint32, read_raw, read_string, read_elems, read_set,
}
use novus.Novasm.Serialization.Format.{le32, text, texts}
use novus.Novasm.Serialization.RoundTrip.{bit_or_bytes}

-- A bind that succeeds has a first part that succeeds.
pub bind_inv :
    {A B : Type 0} (m : Reader A) (f : A → Reader B) (bs : Bytes) {q : B × Bytes}
    → (m >>= f) bs ≡ some q
    → (p : A × Bytes) × (m bs ≡ some p) × (f p.0 p.1 ≡ some q)
bind_inv {A} m f bs {q} h = go (m bs) refl
  where
    go :
        (o : Option (A × Bytes))
        → m bs ≡ o
        → (p : A × Bytes) × (m bs ≡ some p) × (f p.0 p.1 ≡ some q)
    go none e = cc (rw (e, ◌>>=◌) at h)
    go (some p) e = (p, e, rw (e, ◌>>=◌) at h)

-- The same as a rule, with the parts of the run as variables.
pub bind_elim :
    {A B : Type 0} (P : Type 0) (m : Reader A) (f : A → Reader B) (bs : Bytes) {q : B × Bytes}
    → (m >>= f) bs ≡ some q
    → ((a : A) (mid : Bytes) → m bs ≡ some (a, mid) → f a mid ≡ some q → P)
    → P
bind_elim P m f bs h k = let (p, e, h') = bind_inv m f bs h in k p.0 p.1 e h'

pub some_pair :
    {A B : Type 0} {a c : A} {b d : B}
    → ◌≡◌ {A = Option (A × B)} (some (a, b)) (some (c, d))
    → (a ≡ c) × (b ≡ d)
some_pair h = (cc, cc)

-- The bytes that a reader took, and what is left.
abbrev pub Took : Bytes → Bytes → Bytes → Type 0
Took bs used rest = (bs ≡ used ++ rest) × All IsByte rest

pub read_uint32_inv :
    (bs rest : Bytes) (v : ℕ)
    → All IsByte bs
    → read_uint32 bs ≡ some (v, rest)
    → Took bs (le32 v) rest × IsU32 v
unfolding read_uint32 le32
read_uint32_inv [] rest v hb h = cc
read_uint32_inv (a ∷ []) rest v hb h = cc
read_uint32_inv (a ∷ b ∷ []) rest v hb h = cc
read_uint32_inv (a ∷ b ∷ c ∷ []) rest v hb h = cc
read_uint32_inv (a ∷ b ∷ c ∷ d ∷ bs) rest v (ha, (hb, (hc, (hd, hbs)))) h =
    ground (arith, bit_or_bytes a b c d ha hb hc)

-- The loop of readRaw takes exactly the bytes asked for.
pub read_raw_inv :
    (n : ℕ) (out bs rest s : Bytes)
    → All IsByte bs
    → read_raw n out bs ≡ some (s, rest)
    → (used : Bytes) × (s ≡ out ++ used) × (length used ≡ n) × All IsByte used × Took bs used rest
unfolding read_raw
read_raw_inv zero out bs rest s hb h =
    let (e, r) = some_pair h in ([], sym e ∙ sym (append-nil out), refl, tt, (r, rw (← r) hb))
read_raw_inv (suc n) out [] rest s hb h = cc
read_raw_inv (suc n) out (b ∷ bs) rest s hb h =
    let (used, e, l, hu, t) = read_raw_inv n (out ++ (b ∷ [])) bs rest s hb.1 h in
    (
      b ∷ used,
      e ∙ append_assoc out (b ∷ []) used,
      ap suc l,
      (hb.0, hu),
      (ap (λ (t : Bytes). b ∷ t) t.0, t.1),
    )

pub read_string_inv :
    (bs rest s : Bytes)
    → All IsByte bs
    → read_string bs ≡ some (s, rest)
    → Took bs (text s) rest × IsText s
unfolding read_string text
read_string_inv bs rest s hb h =
    let ((n, mid), e, h') = bind_inv read_uint32 _ bs h in
    let ((t, hm), fits) = read_uint32_inv bs mid n hb e in
    let (used, es, l, hu, (r, hr)) = read_raw_inv n [] mid rest s hm h' in
    ((t ∙ rw (r, es, l) (sym (append_assoc (le32 n) used rest)), hr), (rw es hu, rw (es, l) fits))

read_elems_inv :
    (n : ℕ) (acc : List Bytes) (bs rest : Bytes) (ss : List Bytes)
    → All IsByte bs
    → read_elems read_string n acc bs ≡ some (ss, rest)
    → (new : List Bytes) × (ss ≡ acc ++ new)
      × (length new ≡ n)
      × All IsText new
      × Took bs (texts new) rest
unfolding read_elems texts
read_elems_inv zero acc bs rest ss hb h =
    let (e, r) = some_pair h in ([], sym e ∙ sym (append-nil acc), refl, tt, (r, rw (← r) hb))
read_elems_inv (suc n) acc bs rest ss hb h = elim (Option-cases (read_string bs)) [
  | inl e ↦ cc (rw (e, read_elems) at h)
  | inr ((s, mid), e) ↦
      let ((t, hm), hs) = read_string_inv bs mid s hb e in
      let (new, en, l, hn, (r, hr)) =
        read_elems_inv n (acc ++ (s ∷ [])) mid rest ss hm (rw (e, read_elems) at h) in
      (
        s ∷ new,
        en ∙ append_assoc acc (s ∷ []) new,
        ap suc l,
        (hs, hn),
        (t ∙ rw r (sym (append_assoc (text s) (texts new) rest)), hr),
      )
]

pub read_set_inv :
    (bs rest : Bytes) (ss : List Bytes)
    → All IsByte bs
    → read_set read_string bs ≡ some (ss, rest)
    → Took bs (le32 (length ss) ++ texts ss) rest × All IsText ss × IsU32 (length ss)
unfolding read_set
read_set_inv bs rest ss hb h =
    let ((n, mid), e, h') = bind_inv read_uint32 _ bs h in
    let ((t, hm), fits) = read_uint32_inv bs mid n hb e in
    let (new, es, l, hn, (r, hr)) = read_elems_inv n [] mid rest ss hm h' in
    (
      (t ∙ rw (r, es, l) (sym (append_assoc (le32 n) (texts new) rest)), hr),
      rw es hn,
      rw (es, l) fits,
    )
