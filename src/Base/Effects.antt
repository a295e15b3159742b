-- ===== src/Base/Effects.antt =====
-- Code that changes a state and may throw: what was stored before a throw stays stored.
use iv_cloud_gateway.Base.Results.{json_exception, std_exception, dangling, Result, ok, err}

abbrev pub Act : Type 0 → Type 0 → Type 0
Act S A = S → S × Result A

abbrev pub and_then : {S A B : Type 0} → S × Result A → (A → Act S B) → S × Result B
and_then (s, ok a) f = f a s
and_then (s, err e) f = (s, err e)

infixl 5 ◌>>=◌ ◌>>◌
abbrev pub ◌>>=◌ : {S A B : Type 0} → Act S A → (A → Act S B) → Act S B
◌>>=◌ m f s = and_then (m s) f

abbrev pub ◌>>◌ : {S A B : Type 0} → Act S A → Act S B → Act S B
◌>>◌ m k s = and_then (m s) (λ _. k)

abbrev pub pure : {S A : Type 0} → A → Act S A
pure a s = (s, ok a)

abbrev pub lift : {S A : Type 0} → Result A → Act S A
lift r s = (s, r)

abbrev pub modify : {S : Type 0} → (S → S) → Act S (Unit {0})
modify f s = (f s, ok tt)

abbrev pub reads : {S A : Type 0} → (S → A) → Act S A
reads f s = (s, ok (f s))

-- `try { m } catch (const std::exception&) { k }`: an access to a deleted object is no exception.
abbrev pub recover : {S A : Type 0} → S × Result A → Act S A → S × Result A
recover (s, ok a) k = (s, ok a)
recover (s, err json_exception) k = k s
recover (s, err std_exception) k = k s
recover (s, err dangling) k = (s, err dangling)

abbrev pub catching : {S A : Type 0} → Act S A → Act S A → Act S A
catching m k s = recover (m s) k
