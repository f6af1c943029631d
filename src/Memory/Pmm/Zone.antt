-- ===== src/Memory/Pmm/Zone.antt =====
-- When a zone's state is in order, and how a block is described and put on a list.
use zxfoundation.Base.{
  ◌⊎◌, ℕ, suc, ◌+◌, ◌*◌, ◌/◌, ◌%◌, ◌^◌, ◌≤◌, ◌<◌, ◌≡◌, ◌≢◌, inl, inr, refl, sym, ap, ◌∙◌, subst,
  true, List, ◌∷◌, arith, ==_refl, ==_ne, ok, bit_or,
}
use zxfoundation.Base.Arrays.{update, update_self, update_ne}
use zxfoundation.Base.Bits.{bit_or-add}
use zxfoundation.Base.Sums.{length, total, total-change}
use zxfoundation.Memory.Pmm.{
  ZoneState, FrameDesc, page_size, max_order, size_of, buddy_owner, order_of, owner_of, set_frame,
  desc_of, describe, set_at, push,
}
use zxfoundation.Memory.Pmm.Chain.{IsIn, without}
use zxfoundation.Memory.Pmm.Without.{without-law}
use zxfoundation.Memory.Pmm.Lists.{
  IsApart, IsBlock, IsLists, IsIn-push, push-IsLists, size-pos, IsApart-ne,
}

-- The descriptor of a free block of this order.
pub record IsFree (node order : ℕ) (d : FrameDesc) : Type 0 where
  pub at_order : order_of d ≡ order
  pub by_buddy : owner_of d ≡ buddy_owner
  pub on_node : d.numa_node ≡ node

abbrev pub IsListed : ZoneState → (ℕ → List ℕ) → Type 0
IsListed s lists = IsLists s.next_phys s.prev_phys s.heads s.counts s.max_pfn lists

-- The pages on the lists.
unfoldable pub pages_of : (ℕ → List ℕ) → ℕ
pages_of lists = total (λ o. length (lists o) * 2 ^ o) (suc max_order)

-- The lists and the descriptors agree; `lists` are the free blocks by order.
pub record IsStocked (node : ℕ) (s : ZoneState) (lists : ℕ → List ℕ) : Type 0 where
  pub listed : IsListed s lists
  pub described : (k q : ℕ) → IsIn q (lists k) → IsFree node k (s.frames (q / page_size))
  pub table : s.has_table ≡ true
  pub limit : s.max_pfn * page_size < 2 ^ 64

-- Besides, `free_pages` counts the pages on the lists.
pub record IsZone (node : ℕ) (s : ZoneState) (lists : ℕ → List ℕ) : Type 0 where
  pub stocked : IsStocked node s lists
  pub pages : s.free_pages ≡ pages_of lists % 2 ^ 64

-- The block is apart from every free one.
abbrev pub IsNew : ℕ → ℕ → (ℕ → List ℕ) → Type 0
IsNew o p lists = (k q : ℕ) → IsIn q (lists k) → IsApart p (size_of o) q (size_of k)

-- A frame whose descriptor is that of a free block is one, but where it is excepted.
abbrev pub IsExactBut : (ℕ → Type 0) → ℕ → ZoneState → (ℕ → List ℕ) → Type 0
IsExactBut E node s lists =
    (k q : ℕ)
    → q % page_size ≡ 0
    → desc_of s q ≡ ok (q / page_size)
    → IsFree node k (s.frames (q / page_size))
    → IsIn q (lists k) ⊎ E q

pub desc_of-inside :
    (s : ZoneState) (o p : ℕ)
    → s.has_table ≡ true
    → IsBlock s.max_pfn o p
    → desc_of s p ≡ ok (p / page_size)
unfolding desc_of
desc_of-inside s o p table b = ground (arith, b.inside, size-pos o)

pub desc_of-ok : (s : ZoneState) (b pfn : ℕ) → desc_of s b ≡ ok pfn → pfn ≡ b / page_size
unfolding desc_of
desc_of-ok s b pfn h = ground arith

pub set_frame-law :
    (o owner node bits : ℕ)
    → o ≤ max_order
    → owner < 16
    → (order_of (set_frame o owner node bits) ≡ o)
      × (owner_of (set_frame o owner node bits) ≡ owner)
unfolding order_of owner_of set_frame
set_frame-law o owner node bits h g =
    let sum : bit_or (o * 16 % 2 ^ 8) owner ≡ o * 16 % 2 ^ 8 + owner =
      bit_or-add 4 o (o * 16 % 2 ^ 8) owner (omega (arith, h)) (omega (arith, g)) in
    (omega (arith, sum, h, g), omega (arith, sum, h, g))

pub set_frame-IsFree :
    (o node bits : ℕ) → o ≤ max_order → IsFree node o (set_frame o buddy_owner node bits)
unfolding set_frame
set_frame-IsFree o node bits h =
    let law = set_frame-law o buddy_owner node bits h (omega arith) in
    record { at_order = law.0; by_buddy = law.1; on_node = refl }

-- Page-aligned blocks that are apart have different descriptors.
pub other_frame :
    (max_pfn o p k q : ℕ)
    → IsBlock max_pfn o p
    → IsBlock max_pfn k q
    → IsApart p (size_of o) q (size_of k)
    → p / page_size ≢ q / page_size
other_frame max_pfn o p k q b c a e =
    let ne = IsApart-ne p (size_of o) q (size_of k) (size-pos o) (size-pos k) a in
    ne (omega (arith, e, b.aligned, c.aligned))

-- A new block is described and put on its list.
pub push-IsStocked :
    (node o p bits : ℕ) (s : ZoneState) (lists : ℕ → List ℕ)
    → IsStocked node s lists
    → IsBlock s.max_pfn o p
    → IsNew o p lists
    → IsStocked node
        (push o p (record s {
          frames = update s.frames (p / page_size) (set_frame o buddy_owner node bits);
        }))
        (update lists o (p ∷ lists o))
unfolding push
push-IsStocked node o p bits s lists w b new = record {
  listed = push-IsLists s.next_phys s.prev_phys s.heads s.counts s.max_pfn lists w.listed o p b new;
  described = λ k q i.
      let d = set_frame o buddy_owner node bits in
      elim (IsIn-push s.next_phys s.prev_phys s.heads s.counts s.max_pfn lists w.listed o p k q i) [
        | inl (e, z) ↦
            subst (λ t. IsFree node t (update s.frames (p / page_size) d (q / page_size))) e
              (subst (λ t. IsFree node o (update s.frames (p / page_size) d (t / page_size)))
                (sym z)
                (subst (IsFree node o) (sym (update_self s.frames (p / page_size) d))
                  (set_frame-IsFree o node bits b.in_order)))
        | inr j ↦
            subst (IsFree node k)
              (sym (
                update_ne s.frames (p / page_size) (q / page_size) d
                  (other_frame s.max_pfn o p k q b (w.listed.placed k q j) (new k q j))))
              (w.described k q j)
      ];
  table = w.table;
  limit = w.limit;
}

pub describe-inside :
    (s : ZoneState) (o p : ℕ) (d : FrameDesc)
    → s.has_table ≡ true
    → IsBlock s.max_pfn o p
    → describe p d s ≡ record s { frames = update s.frames (p / page_size) d }
unfolding describe set_at
describe-inside s o p d table b = rw (desc_of-inside s o p table b)

weight_step : (a b l n weight : ℕ) → a + l * weight ≡ b + n * weight → n ≡ suc l → a ≡ b + weight
weight_step a b l n weight h e =
    let moved : a + l * weight ≡ b + suc l * weight =
      subst (λ t. a + l * weight ≡ b + t * weight) e h in
    omega (arith, moved)

-- A list that gets longer or shorter by one block moves the pages by the block's.
pub pages_of-push :
    (lists : ℕ → List ℕ) (o p : ℕ)
    → o ≤ max_order
    → pages_of (update lists o (p ∷ lists o)) ≡ pages_of lists + 2 ^ o
unfolding pages_of length
pages_of-push lists o p h =
    let change =
      total-change (λ k. length (lists k) * 2 ^ k)
        (λ k. length (update lists o (p ∷ lists o) k) * 2 ^ k) o (suc max_order) (omega (arith, h))
        (λ j ne. rw (==_ne o j ne)) in
    let here : length (update lists o (p ∷ lists o) o) ≡ suc (length (lists o)) = rw (==_refl o) in
    weight_step (pages_of (update lists o (p ∷ lists o))) (pages_of lists) (length (lists o))
      (length (update lists o (p ∷ lists o) o)) (2 ^ o) change here

pub pages_of-without :
    (next prev heads counts : ℕ → ℕ) (max_pfn : ℕ) (lists : ℕ → List ℕ)
    → IsLists next prev heads counts max_pfn lists
    → (o p : ℕ) → IsIn p (lists o)
    → pages_of (update lists o (without p (lists o))) + 2 ^ o ≡ pages_of lists
unfolding pages_of
pages_of-without next prev heads counts max_pfn lists w o p i =
    let change =
      total-change (λ k. length (lists k) * 2 ^ k)
        (λ k. length (update lists o (without p (lists o)) k) * 2 ^ k) o (suc max_order)
        (omega (arith, (w.placed o p i).in_order)) (λ j ne. rw (==_ne o j ne)) in
    let here : update lists o (without p (lists o)) o ≡ without p (lists o) = rw (==_refl o) in
    let law = without-law p (lists o) (w.distinct o) i in
    sym (
      weight_step (pages_of lists) (pages_of (update lists o (without p (lists o))))
        (length (update lists o (without p (lists o)) o)) (length (lists o)) (2 ^ o) (sym change)
        (law.2 ∙ ap (λ t. suc (length t)) (sym here)))
