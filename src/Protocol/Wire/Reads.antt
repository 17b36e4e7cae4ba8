-- ===== src/Protocol/Wire/Reads.antt =====
-- The relation between a reader and the bytes that a writer produced, and its rules for `do` blocks.
use ht2mp.Prelude.{ℕ, ◌≡◌, refl, Bool, true, some, List, [], ◌∷◌, ◌++◌, All, length, append_assoc}
use ht2mp.Protocol.Writer
use ht2mp.Protocol.Reader
use ht2mp.Protocol.Reader.{Reader, ◌>>=◌, ◌>>◌, pure, require}

-- On the bytes, whatever follows them, the reader returns the value and leaves what follows.
pub record Reads {ℓ} {A : Type ℓ} (r : Reader A) (bytes : List ℕ) (a : A) : Type ℓ where
  pub on : (rest : List ℕ) → r (bytes ++ rest) ≡ some (a, rest)

pub Reads-pure {ℓ} : {A : Type ℓ} (a : A) → Reads (pure a) [] a
unfolding pure
Reads-pure a = record { on = λ rest. refl }

pub Reads-require {ℓ} :
    {A : Type ℓ} {b : Bool} {k : Reader A} {bytes : List ℕ} {a : A}
    → b ≡ true
    → Reads k bytes a
    → Reads (require b >> k) bytes a
unfolding ◌>>◌ ◌>>=◌ require
Reads-require e h = record { on = λ rest. rw e (h.on rest) }

pub Reads-bind {ℓ κ} :
    {A : Type ℓ} {B : Type κ} {r : Reader A} (f : A → Reader B) {bytes more : List ℕ} {a : A}
    {b : B}
    → Reads r bytes a
    → Reads (f a) more b
    → Reads (r >>= f) (bytes ++ more) b
unfolding ◌>>=◌
Reads-bind {r} f {bytes} {more} h k = record {
  on = λ rest. rw (append_assoc bytes more rest, ◌>>=◌, h.on (more ++ rest)) (k.on rest);
}

-- The last read of a block: nothing is appended behind it.
pub Reads-last {ℓ κ} :
    {A : Type ℓ} {B : Type κ} {r : Reader A} (f : A → B) {bytes : List ℕ} {a : A}
    → Reads r bytes a
    → Reads (r >>= λ x. pure (f x)) bytes (f a)
unfolding ◌>>=◌ pure
Reads-last f h = record { on = λ rest. rw (◌>>=◌, h.on rest) }

module _ {ℓ κ} {A : Type ℓ} (put : A → List ℕ) (get : Reader A) (P : A → Type κ) where
  pub Reads-array :
      ((a : A) → P a → Reads get (put a) a)
      → (items : List A) → All P items
      → Reads (Reader.array (length items) get) (Writer.array put items) items
  unfolding Reader.array Writer.array
  Reads-array each [] h = Reads-pure []
  Reads-array each (a ∷ items) h =
      Reads-bind _ (each a h.0) (Reads-last _ (Reads-array each items h.1))
