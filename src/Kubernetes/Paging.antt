-- ===== src/Kubernetes/Paging.antt =====
-- `pageByParam` of metadata.go. Page numbers and sizes are Go ints; negative ones are left out.
use native.Mathlib.Nat.{zero-mul}
use apo.Common.{
  inr, ◌∙◌, sym, inl, Bool-cases, ap, ℕ, zero, suc, ◌+◌, ◌-◌, ◌*◌, ◌≤◌, ◌<◌, false, ◌&&◌, ◌≡◌, refl,
  Option, none, some, List, [], ◌∷◌, ◌++◌, arith, if◌then◌else◌, ltb, leb, ◌==◌, length, take, drop,
}
use Prim.Native.Nat.add

pub record PageParam : Type 0 where
  pub current_page : ℕ
  pub page_size : ℕ

-- The page with the number of all items, or the panic of a slice with a negative bound.
pub data Page {ℓ} (A : Type ℓ) : Type ℓ where
  page : List A → ℕ → Page A
  panic : Page A

module _ {ℓ} {A : Type ℓ} where
  -- `list[start:end]`
  abbrev pub slice : List A → ℕ → ℕ → List A
  slice list start end = take (end - start) (drop start list)

  unfoldable pub page_by : List A → PageParam → Page A
  page_by list param =
      let total = length list in
      let start = (param.current_page - 1) * param.page_size in
      let end = start + param.page_size in
      if ltb total param.page_size
      then page list total
      else if param.current_page == 0 && ltb 0 param.page_size
      then panic
      else if leb total start
      then page [] total
      else page (slice list start (if ltb total end then total else end)) total

  unfoldable pub page_by_param : List A → Option PageParam → Page A
  unfolding page_by
  page_by_param list none = page list (length list)
  page_by_param list (some param) = page_by list param

  abbrev pub items : Page A → List A
  items (page list total) = list
  items panic = []

  -- The items of the pages 1 to `count` that a query returns, one page after the other.
  pub pages_of : (PageParam → Page A) → ℕ → ℕ → List A
  pages_of query size zero = []
  pages_of query size (suc count) =
      pages_of query size count
      ++ items (query (record { current_page = suc count; page_size = size }))

  take-ge : (n : ℕ) (xs : List A) → length xs ≤ n → take n xs ≡ xs
  take-ge zero [] h = refl
  take-ge (suc n) [] h = refl
  take-ge (suc n) (x ∷ xs) h = ap (λ r. x ∷ r) (take-ge n xs (omega arith))
  take-ge zero (x ∷ xs) h = absurd (omega arith)

  length-drop : (n : ℕ) (xs : List A) → length (drop n xs) ≡ length xs - n
  length-drop zero xs = omega arith
  length-drop (suc n) [] = omega arith
  length-drop (suc n) (x ∷ xs) = omega (arith, length-drop n xs)

  drop-ge : (n : ℕ) (xs : List A) → length xs ≤ n → drop n xs ≡ []
  drop-ge zero [] h = refl
  drop-ge (suc n) [] h = refl
  drop-ge (suc n) (x ∷ xs) h = drop-ge n xs (omega arith)
  drop-ge zero (x ∷ xs) h = absurd (omega arith)

  pub take-nil : (n : ℕ) → take {A = A} n [] ≡ []
  take-nil zero = refl
  take-nil (suc n) = refl

  take-add : (m n : ℕ) (xs : List A) → take m xs ++ take n (drop m xs) ≡ take (m + n) xs
  take-add zero n xs = rw add.zero
  take-add (suc m) n [] = rw (take-nil n, take-nil (suc m + n))
  take-add (suc m) n (x ∷ xs) = rw add.suc (ap (λ r. x ∷ r) (take-add m n xs))

  end_of_slice : List A → ℕ → ℕ → ℕ
  end_of_slice list start size =
      if ltb (length list) (start + size) then length list else start + size

  slice_lem :
      (list : List A) (start size : ℕ)
      → start < length list
      → slice list start (end_of_slice list start size) ≡ take size (drop start list)
  unfolding end_of_slice
  slice_lem list start size h = elim (Bool-cases (ltb (length list) (start + size))) [
    | inl short ↦ rw short (
        take-ge (length list - start) (drop start list) (omega (arith, length-drop start list))
        ∙ sym (take-ge size (drop start list) (ground (arith, length-drop start list))))
    | inr full ↦ let e : start + size - start ≡ size = omega arith in rw (full, e)
  ]

  -- Unless the list is shorter than a page, page k + 1 is the k-th block of `size` items.
  page_by_param-block :
      (list : List A) (k size : ℕ)
      → size ≤ length list
      → items (page_by_param list (some (record { current_page = suc k; page_size = size })))
        ≡ take size (drop (k * size) list)
  unfolding page_by_param
  page_by_param-block list k size h =
      let first : suc k - 1 ≡ k = omega arith in
      let enough : ltb (length list) size ≡ false = ground arith in
      let positive : suc k == 0 ≡ false = ground arith in
      rw (page_by, first)
        (rw (enough, positive)
          (elim (Bool-cases (leb (length list) (k * size))) [
            | inl past ↦
                rw past
                  (sym (ap (take size) (drop-ge (k * size) list (ground arith)) ∙ take-nil size))
            | inr within ↦
                rw within (unfold end_of_slice in slice_lem list (k * size) size (ground arith))
          ]))

  pub pages_of-empty : (size count : ℕ) → pages_of (λ param. page [] 0) size count ≡ []
  unfolding pages_of
  pages_of-empty size zero = refl
  pages_of-empty size (suc count) = rw (pages_of-empty size count)

  -- Unless the list is shorter than a page, its pages one after the other are its first items, in
  -- order: no item is lost or repeated.
  pub pages_of-page_by_param :
      (list : List A) (size count : ℕ)
      → size ≤ length list
      → pages_of (λ param. page_by_param list (some param)) size count ≡ take (count * size) list
  unfolding pages_of
  pages_of-page_by_param list size zero h = rw zero-mul
  pages_of-page_by_param list size (suc count) h =
      let next : suc count * size ≡ count * size + size = grind arith in
      rw (pages_of-page_by_param list size count h, page_by_param-block list count size h, next)
        (take-add (count * size) size list)

  -- A list that is shorter than a page is returned whole for every page number.
  pub page_by_param-short :
      (list : List A) (current size : ℕ)
      → length list < size
      → page_by_param list (some (record { current_page = current; page_size = size }))
        ≡ page list (length list)
  unfolding page_by_param
  page_by_param-short list current size h = ground arith
