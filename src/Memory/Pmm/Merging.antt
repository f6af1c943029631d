-- ===== src/Memory/Pmm/Merging.antt =====
-- The last part of free_locked in a zone in order: the merged block goes on its list.
use zxfoundation.Base.{
  ℕ, ◌+◌, ◌/◌, ◌^◌, ◌≤◌, ◌<◌, ◌≡◌, inl, refl, sym, subst, List, ◌∷◌, arith, ==_refl, bit_and,
  bit_or,
}
use zxfoundation.Base.Arrays.{update, update_ne}
use zxfoundation.Memory.Pmm.{ZoneState, page_size, size_of, ff_suspect, push}
use zxfoundation.Memory.Pmm.Chain.{IsIn}
use zxfoundation.Memory.Pmm.Lists.{IsBlock}
use zxfoundation.Memory.Pmm.Zone.{
  IsExactBut, IsFree, IsZone, IsNew, pages_of, push-IsStocked, desc_of-inside, pages_of-push,
  other_frame,
}
use zxfoundation.Memory.Pmm.Freeing.{mark_suspect, suspect_at, free_at, insert_block}

-- The block from `p` of order `order` is in a block of the lists, and the lists have its pages more.
pub record IsReturned (node order p : ℕ) (before : ℕ → List ℕ) (t : ZoneState) : Type 0 where
  pub lists : ℕ → List ℕ
  pub zone : IsZone node t lists
  pub into_order : ℕ
  pub start : ℕ
  pub listed : IsIn start (lists into_order)
  pub from_start : start ≤ p
  pub to_end : p + size_of order ≤ start + size_of into_order
  pub balance : pages_of lists ≡ pages_of before + 2 ^ order

-- A frame whose descriptor is that of a free block is one, but inside the block that is being freed.
abbrev pub IsHonest : ℕ → ℕ → ℕ → ZoneState → (ℕ → List ℕ) → Type 0
IsHonest node order p s lists = IsExactBut (λ q. (p ≤ q) × (q < p + size_of order)) node s lists

pub insert_block-IsReturned :
    (node order p : ℕ) (s : ZoneState) (lists : ℕ → List ℕ)
    → IsZone node s lists
    → IsBlock s.max_pfn order p
    → IsNew order p lists
    → IsReturned node order p lists (insert_block node p order s)
unfolding insert_block free_at push IsIn
insert_block-IsReturned node order p s lists w b new =
    let bits = bit_and (s.frames (p / page_size)).flags ff_suspect in
    let stocked = push-IsStocked node order p bits s lists w.stocked b new in
    let more = pages_of-push lists order p b.in_order in
    rw (desc_of-inside s order p w.stocked.table b) (record {
      lists = update lists order (p ∷ lists order);
      zone = record {
        stocked = record {
          listed = stocked.listed;
          described = stocked.described;
          table = stocked.table;
          limit = stocked.limit;
        };
        pages = omega (arith, more, w.pages);
      };
      into_order = order;
      start = p;
      listed = rw (==_refl order) (inl refl);
      from_start = omega arith;
      to_end = omega arith;
      balance = more;
    })

-- A flag set in the block's own descriptor does not concern the lists.
pub mark_suspect-IsZone :
    (node order p : ℕ) (s : ZoneState) (lists : ℕ → List ℕ)
    → IsZone node s lists
    → IsBlock s.max_pfn order p
    → IsNew order p lists
    → IsZone node (mark_suspect p s) lists × ((mark_suspect p s).max_pfn ≡ s.max_pfn)
unfolding mark_suspect suspect_at
mark_suspect-IsZone node order p s lists w b new =
    let d = s.frames (p / page_size) in
    let marked = record d { flags = bit_or d.flags ff_suspect } in
    rw (desc_of-inside s order p w.stocked.table b) (
      record {
        stocked = record {
          listed = w.stocked.listed;
          described = λ k q i.
              subst (IsFree node k)
                (sym (
                  update_ne s.frames (p / page_size) (q / page_size) marked (
                    other_frame s.max_pfn order p k q b (w.stocked.listed.placed k q i)
                      (new k q i))))
                (w.stocked.described k q i);
          table = w.stocked.table;
          limit = w.stocked.limit;
        };
        pages = w.pages;
      },
      refl,
    )
