-- ===== src/Signer/Chains.antt =====
-- Chains of early replies, as packager/signer/signer.go returns early: what a chain that succeeds has
-- gone through, and what a reply that ends one early is known to be.
use mathlib.Core.Path.{subst}
use amppackager.Prelude.{
  ◌≡◌, refl, ap, Bool, true, false, not, Option, none, some, Result, ok, err, ◌>>=◌, ok-injective,
  if◌then◌else◌,
}
use amppackager.Header.{Header}
use amppackager.Signer.{Reply, Response, or_else, drop_error, check, stepped}

pub after : {A C : Type 0} {P Q : A → Type 0} → (a : A) × P a × Q a → ((a : A) → P a → Q a → C) → C
after (a, p, q) k = k a p q

pub or_else-eq-ok : {E A : Type 0} (e : E) (o : Option A) {a : A} → or_else e o ≡ ok a → o ≡ some a
or_else-eq-ok e none h = absurd (cc)
or_else-eq-ok e (some b) h = ap some (ok-injective h)

pub drop_error-eq-ok :
    {E F A : Type 0} (e : E) (m : Result F A) {a : A} → drop_error e m ≡ ok a → m ≡ ok a
drop_error-eq-ok e (ok b) h = ap ok (ok-injective h)
drop_error-eq-ok e (err f) h = absurd (cc)

pub check-eq-ok : {E : Type 0} (b : Bool) (e : E) → check b e ≡ ok tt → b ≡ false
check-eq-ok true e h = absurd (cc)
check-eq-ok false e h = refl

pub stepped-eq-ok :
    {E : Type 0} (header : E → Header) (r : Response) (s : Bool × E) {e : E}
    → stepped header r s ≡ ok e
    → s ≡ (true, e)
stepped-eq-ok header r (true, d) h = ap (λ x. (true, x)) (ok-injective h)
stepped-eq-ok header r (false, d) h = absurd (cc)

pub data Early {A : Type 0} (P : Reply → Type 0) : Result Reply A → Type 0 where
  goes_on : {a : A} → Early P (ok a)
  ends : {reply : Reply} → P reply → Early P (err reply)

pub data Failed {E A B : Type 0} (m : Result E A) (f : A → Result E B) (e : E) : Type 0 where
  failed : m >>= f ≡ err e → Failed m f e

pub chain :
    {E A B : Type 0} (m : Result E A) (f : A → Result E B) {e : E} → m >>= f ≡ err e → Failed m f e
chain m f h = failed h

pub ok-not-err : {E A C : Type 0} {a : A} {e : E} → ◌≡◌ {A = Result E A} (ok a) (err e) → C
ok-not-err h = absurd (cc)

pub if-split :
    {E A P : Type 0} (c : Bool) (y z x : Result E A)
    → (if c then y else z) ≡ x
    → (y ≡ x → P)
    → (z ≡ x → P)
    → P
if-split true y z x h f g = f h
if-split false y z x h f g = g h

pub if-split-on :
    {E A P : Type 0} (c : Bool) (y z x : Result E A)
    → (if c then y else z) ≡ x
    → (c ≡ true → y ≡ x → P)
    → (c ≡ false → z ≡ x → P)
    → P
if-split-on true y z x h f g = f refl h
if-split-on false y z x h f g = g refl h

pub err-injective : {E A : Type 0} {d e : E} → ◌≡◌ {A = Result E A} (err d) (err e) → d ≡ e
err-injective h = cc

pub not-false : (x : Bool) → not x ≡ false → x ≡ true
not-false true h = refl
not-false false h = absurd (cc)

pub next :
    {A : Type 0} {P : Reply → Type 0} {m : Result Reply A} {f : A → Result Reply Reply} {e : Reply}
    → Failed m f e
    → Early P m
    → ((a : A) → f a ≡ err e → P e)
    → P e
next {m = ok a} (failed h) e k = k a h
next {P = P} {m = err d} (failed h) (ends e) k = subst P (err-injective h) e

pub if-test :
    {E A P : Type 0} (c : Bool) (y z x : Result E A)
    → (if c then y else z) ≡ x
    → (c ≡ true → y ≡ x → P)
    → (c ≡ false → z ≡ x → P)
    → P
if-test true y z x h f g = f refl h
if-test false y z x h f g = g refl h

pub or_else-Early :
    {A : Type 0} (P : Reply → Type 0) (e : Reply) (o : Option A) → P e → Early P (or_else e o)
or_else-Early P e none h = ends h
or_else-Early P e (some a) h = goes_on

pub drop_error-Early :
    {F A : Type 0} (P : Reply → Type 0) (e : Reply) (m : Result F A)
    → P e
    → Early P (drop_error e m)
drop_error-Early P e (ok a) h = goes_on
drop_error-Early P e (err f) h = ends h

pub check-Early : (P : Reply → Type 0) (c : Bool) (e : Reply) → P e → Early P (check c e)
check-Early P true e h = ends h
check-Early P false e h = goes_on
