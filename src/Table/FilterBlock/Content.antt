-- ===== src/Table/FilterBlock/Content.antt =====
-- What a `FilterBlockBuilder` holds: the keys of each finished filter, and the keys that are waiting
-- for the next one.
use rally_db.Prelude.{
  ℕ, ◌+◌, ◌-◌, List, [], ◌∷◌, ◌++◌, ◌≡◌, refl, ap, false, arith, ◌==◌, length, length-append, take,
  drop, take_of_append, drop_of_append, append_assoc, append-nil,
}
use rally_db.Util.Coding.{Bytes}
use rally_db.Table.FilterBlock.{FilterPolicy}
use rally_db.Table.FilterBlock.Builder.{
  FilterBlockBuilder, add_key, slices, create_units, generate_filter,
}

-- The keys, one after the other, and where each begins.
unfoldable pub flat : List Bytes → Bytes
flat [] = []
flat (k ∷ ks) = k ++ flat ks

unfoldable pub starts : ℕ → List Bytes → List ℕ
starts n [] = []
starts n (k ∷ ks) = n ∷ starts (n + length k) ks

flat-append : (ks : List Bytes) (k : Bytes) → flat (ks ++ (k ∷ [])) ≡ flat ks ++ k
unfolding flat
flat-append [] k = append-nil k
flat-append (x ∷ ks) k = rw (flat-append ks k, append_assoc)

starts-append :
    (n : ℕ) (ks : List Bytes) (k : Bytes)
    → starts n (ks ++ (k ∷ [])) ≡ starts n ks ++ ((n + length (flat ks)) ∷ [])
unfolding starts flat
starts-append n [] k = ground arith
starts-append n (x ∷ ks) k =
    ground (arith, starts-append (n + length x) ks k, length-append x (flat ks))

cut :
    (front k rest : Bytes) (n m : ℕ)
    → n ≡ length front
    → m ≡ n + length k
    → take (m - n) (drop n (front ++ (k ++ rest))) ≡ k
cut front k rest n m hn hm =
    rw (drop_of_append front (k ++ rest) hn) (take_of_append k rest (omega arith))

slices-starts :
    (front : Bytes) (n : ℕ) (ks : List Bytes)
    → n ≡ length front
    → slices (front ++ flat ks) (starts n ks ++ ((n + length (flat ks)) ∷ [])) ≡ ks
unfolding slices starts flat
slices-starts front n [] e = refl
slices-starts front n (k ∷ []) e =
    rw (cut front k [] n (n + length (k ++ [])) e (ap (λ xs. n + length xs) (append-nil k))) refl
slices-starts front n (k ∷ k' ∷ ks) e =
    let rest =
      slices-starts (front ++ k) (n + length k) (k' ∷ ks) (omega (arith, length-append front k)) in
    let back : front ++ (k ++ (k' ++ flat ks)) ≡ (front ++ k) ++ (k' ++ flat ks) =
      simp append_assoc in
    let end : n + length (k ++ (k' ++ flat ks)) ≡ n + length k + length (k' ++ flat ks) =
      omega (arith, length-append k (k' ++ flat ks)) in
    let tail : slices (front ++ (k ++ (k' ++ flat ks))) (
          (n + length k)
          ∷ (starts (n + length k + length k') ks ++ ((n + length (k ++ (k' ++ flat ks))) ∷ [])))
        ≡ k' ∷ ks =
      rw (back, end) rest in
    rw (cut front k (k' ++ flat ks) n (n + length k) e refl, tail) refl

-- The keys that wait in a builder for the next filter.
unfoldable pub Waits : FilterBlockBuilder → List Bytes → Type 0
Waits b ks = (b.keys ≡ flat ks) × (b.start ≡ starts 0 ks)

-- `AddKey` puts its key behind those that wait.
pub add_key-Waits :
    (b : FilterBlockBuilder) (ks : List Bytes) (k : Bytes)
    → Waits b ks
    → Waits (add_key b k) (ks ++ (k ∷ []))
unfolding Waits add_key
add_key-Waits b ks k (hk, hs) =
    let at : 0 + length (flat ks) ≡ length (flat ks) = omega arith in
    (rw (flat-append ks k, hk) refl, rw (starts-append 0 ks k, hk, hs, at) refl)

-- `GenerateFilter` cuts the keys that wait apart, in the order that they came in.
pub generate_filter-Waits :
    (policy : FilterPolicy) (b : FilterBlockBuilder) (k : Bytes) (ks : List Bytes)
    → Waits b (k ∷ ks)
    → ((generate_filter policy b).filter_units ≡ create_units policy 0 (k ∷ ks) b.filter_units)
      × Waits (generate_filter policy b) []
unfolding Waits generate_filter flat starts
generate_filter-Waits policy b k ks (hk, hs) =
    let at : length (flat (k ∷ ks)) ≡ 0 + length (flat (k ∷ ks)) = omega arith in
    let cuts : slices (flat (k ∷ ks)) (starts 0 (k ∷ ks) ++ (length (flat (k ∷ ks)) ∷ []))
        ≡ k ∷ ks =
      rw at (slices-starts [] 0 (k ∷ ks) refl) in
    let some_wait : (length (starts 0 (k ∷ ks)) == 0) ≡ false = unfold starts in ground arith in
    (
      rw (generate_filter, hk, hs, some_wait, cuts) refl,
      (rw (generate_filter, hs, some_wait) refl, rw (generate_filter, hs, some_wait) refl),
    )
