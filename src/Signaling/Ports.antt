-- ===== src/Signaling/Ports.antt =====
-- The thread of the media server that a session belongs to, in `remote_handler` of
-- examples/async_signal/mod.rs and `web_request` of examples/sync_signal/mod.rs.
use mathlib.Core.List.{Perm, Permᴰ}
use mathlib.Core.Logic.{∥∥₁_elim}
use sfu.Prelude.{
  ℕ, zero, suc, ◌%◌, ◌<◌, ◌≡◌, refl, sym, ◌∙◌, ap, Option, none, some, List, [], ◌∷◌, In, inl, inr,
  ◌⊎◌, if◌then◌else◌, leb, length, arith, Bool-cases,
}
use sfu.Types.{SessionId}

-- `sorted_ports.sort()`
unfoldable pub insert_port : ℕ → List ℕ → List ℕ
insert_port p [] = p ∷ []
insert_port p (q ∷ ports) = if leb p q then p ∷ q ∷ ports else q ∷ insert_port p ports

unfoldable pub sort : List ℕ → List ℕ
unfolding insert_port
sort [] = []
sort (p ∷ ports) = insert_port p (sort ports)

abbrev get_elem? {ℓ} : {A : Type ℓ} → List A → ℕ → Option A
get_elem? [] i = none
get_elem? (x ∷ xs) zero = some x
get_elem? (x ∷ xs) (suc i) = get_elem? xs i

-- The keys of `media_port_thread_map` are in no order; `none` is the failure of `assert!` on no ports.
unfoldable pub port_for : List ℕ → SessionId → Option ℕ
unfolding sort
port_for ports session_id = get_elem? (sort ports) (session_id % length (sort ports))

insert_comm :
    (p q : ℕ) (ports : List ℕ)
    → insert_port p (insert_port q ports) ≡ insert_port q (insert_port p ports)
unfolding insert_port
insert_comm p q [] = ground arith
insert_comm p q (r ∷ ports) = ground (arith, insert_comm p q ports)

sort-Permᴰ : {xs ys : List ℕ} → Permᴰ xs ys → sort xs ≡ sort ys
unfolding sort
sort-Permᴰ Permᴰ.nil = refl
sort-Permᴰ (Permᴰ.cons {a = a} {l₂ = ys} e d) = rw (e, sort-Permᴰ d) refl
sort-Permᴰ (Permᴰ.swap {a = a} {b = b} {l = l} e f) = insert_comm a b (sort l) ∙ rw (e, f) refl
sort-Permᴰ (Permᴰ.trans d e) = sort-Permᴰ d ∙ sort-Permᴰ e

length-insert_port : (p : ℕ) (ports : List ℕ) → length (insert_port p ports) ≡ suc (length ports)
unfolding insert_port
length-insert_port p [] = refl
length-insert_port p (q ∷ ports) = ground (arith, length-insert_port p ports)

In-insert_port : (x p : ℕ) (ports : List ℕ) → In x (insert_port p ports) → (x ≡ p) ⊎ In x ports
unfolding insert_port
In-insert_port x p [] i = i
In-insert_port x p (q ∷ ports) i = elim (Bool-cases (leb p q)) [
  | inl h ↦ rw h at i
  | inr h ↦ elim (rw h at i) [
    | inl e ↦ inr (inl e)
    | inr j ↦ elim (In-insert_port x p ports j) [ inl e ↦ inl e | inr k ↦ inr (inr k) ]
  ]
]

In-sort : (x : ℕ) (ports : List ℕ) → In x (sort ports) → In x ports
unfolding sort
In-sort x [] i = i
In-sort x (p ∷ ports) i = elim (In-insert_port x p (sort ports) i) [
  | inl e ↦ inl e
  | inr j ↦ inr (In-sort x ports j)
]

get_elem?-In : (xs : List ℕ) (i : ℕ) → i < length xs → (x : ℕ) × (get_elem? xs i ≡ some x) × In x xs
get_elem?-In [] i h = absurd (omega arith)
get_elem?-In (x ∷ xs) zero h = (x, refl, inl refl)
get_elem?-In (x ∷ xs) (suc i) h = let (y, e, m) = get_elem?-In xs i (omega arith) in (y, e, inr m)

port_for-Permᴰ :
    (ports ports' : List ℕ) (sid : SessionId)
    → Permᴰ ports ports'
    → port_for ports sid ≡ port_for ports' sid
unfolding port_for
port_for-Permᴰ ports ports' sid d = ap (λ s. get_elem? s (sid % length s)) (sort-Permᴰ d)

-- Where there is a port, every session has one of the ports.
pub port_for-In :
    (port : ℕ) (ports : List ℕ) (sid : SessionId)
    → (p : ℕ) × (port_for (port ∷ ports) sid ≡ some p) × In p (port ∷ ports)
unfolding port_for sort
port_for-In port ports sid =
    let sorted = insert_port port (sort ports) in
    let (p, e, m) =
      get_elem?-In sorted (sid % length sorted)
        (ground (arith, length-insert_port port (sort ports))) in
    (p, e, In-sort p (port ∷ ports) m)

-- Where there is a port, every session has one of them, and it is the same in whatever order the map gives
-- its keys.
pub port_for_stable :
    (port : ℕ) (ports ports' : List ℕ) (sid : SessionId)
    → Perm (port ∷ ports) ports'
    → (p : ℕ) × (port_for ports' sid ≡ some p)
      × (port_for (port ∷ ports) sid ≡ some p)
      × In p (port ∷ ports)
port_for_stable port ports ports' sid perm =
    let same : port_for (port ∷ ports) sid ≡ port_for ports' sid =
      ∥∥₁_elim perm (hlevel) (port_for-Permᴰ (port ∷ ports) ports' sid) in
    let (p, e, i) = port_for-In port ports sid in (p, sym same ∙ e, e, i)
