-- ===== src/Avmf/Headers.antt =====
-- Kernel/mm/avmf.c: the headers of virtual allocations and the two lists of them that a region
-- keeps, `avmf_unlink_header` and `avmf_link_header`. Headers stand in a store by their addresses;
-- 0 is NULL.
pub mod Linked
use aos.Base.{ℕ, zero, suc, ◌+◌, ◌-◌, ◌%◌, ◌^◌, Bool, true, false, not, ◌&&◌, ◌||◌, ltb, ◌==◌}
use aos.Base.{Option, none, some, if◌then◌else◌}
use aos.Avmf.{Region, usable, avmf_signature, avmf_version}

-- `enum AVMF_HeaderType`.
pub data HeaderType : Type 0 where
  corrupt cache alloc : HeaderType

-- `struct AVMF_Header`, less `flags` and `attributes`, which no code reads.
pub record Header : Type 0 where
  pub signature : ℕ
  pub version : ℕ
  pub type : HeaderType
  pub virt_addr : ℕ
  pub phys_addr : ℕ
  pub size : ℕ
  pub used : Bool
  pub next : ℕ
  pub parent : ℕ

-- `alloc_list`, `alloc_count` and `alloc_list_end`, or the same three of the cache.
pub record HeaderList : Type 0 where
  pub list : ℕ
  pub count : ℕ
  pub end : ℕ

-- A region with its two lists, over the store of headers.
pub record Space : Type 0 where
  pub region : Region
  pub allocs : HeaderList
  pub caches : HeaderList
  pub headers : ℕ → Header

abbrev pub change : Space → ℕ → (Header → Header) → Space
change v h f = record v { headers = λ a. if a == h then f (v.headers a) else v.headers a }

abbrev pub set_type : HeaderType → Header → Header
set_type t x = record x { type = t }

abbrev pub set_next : ℕ → Header → Header
set_next n x = record x { next = n }

abbrev pub set_parent : ℕ → Header → Header
set_parent p x = record x { parent = p }

-- Does the header bear another signature or version?
abbrev pub is_bad : Header → Bool
is_bad x = not (x.signature == avmf_signature) || not (x.version == avmf_version)

abbrev pub is_corrupt : HeaderType → Bool
is_corrupt corrupt = true
is_corrupt cache = false
is_corrupt alloc = false

abbrev pub same_type : HeaderType → HeaderType → Bool
same_type corrupt corrupt = true
same_type cache cache = true
same_type alloc alloc = true
same_type _ _ = false

-- The list that the type of a header chooses, and the space with that list changed.
abbrev pub list_of : HeaderType → Space → HeaderList
list_of cache v = v.caches
list_of alloc v = v.allocs
list_of corrupt v = v.allocs

abbrev pub with_list : HeaderType → Space → HeaderList → Space
with_list cache v l = record v { caches = l }
with_list alloc v l = record v { allocs = l }
with_list corrupt v l = v

-- What `avmf_unlink_header` does to the header behind `h`: the pointer to it, NULL if it is bad,
-- and whether it is (`poisoned`).
abbrev pub detach_next : Space → (n p : ℕ) → Space × ℕ × Bool
detach_next v n p =
    if n == 0
    then (v, 0, false)
    else if is_bad (v.headers n)
    then (change v n (set_type corrupt), 0, true)
    else (change v n (set_parent p), n, false)

-- And to the header before it.
abbrev pub detach_parent : Space × ℕ × Bool → ℕ → Space × Bool
detach_parent (v, n, poisoned) p =
    if p == 0
    then (v, poisoned)
    else if not (is_bad (v.headers p))
    then (change v p (set_next (if poisoned then 0 else n)), poisoned)
    else if not poisoned && not (n == 0)
    then (change (change v n (set_parent 0)) p (set_type corrupt), true)
    else (v, true)

-- The list without `h`: its end or its head moves, not both.
abbrev pub shrink : HeaderList → (h : ℕ) → Header → HeaderList
shrink l h x = record {
  list = if not (l.end == h) && l.list == h then x.next else l.list;
  count = l.count - 1;
  end = if l.end == h then x.parent else l.end;
}

abbrev pub unlinked : HeaderType → ℕ → Space × Bool → Space
unlinked t h (v, true) = change v h (set_type corrupt)
unlinked t h (v, false) =
    change (with_list t v (shrink (list_of t v) h (v.headers h))) h
      (λ x. record x { next = 0; parent = 0 })

unfoldable pub unlink_header : Space → ℕ → Space
unlink_header v h =
    let x = v.headers h in
    if h == 0 || not (usable v.region)
    then v
    else if is_corrupt x.type
    then v
    else if (list_of x.type v).count == 0
    then change v h (set_type corrupt)
    else unlinked x.type h (detach_parent (detach_next v x.next x.parent) x.parent)

-- `reset_list`.
abbrev pub reset_list : HeaderType → Space → ℕ → Space
reset_list t v h = with_list t v (record { list = h; count = 1; end = h })

abbrev pub set_count : HeaderType → Space → ℕ → Space
set_count t v n = with_list t v (record (list_of t v) { count = n })

-- `c->next = h; h->parent = c`.
abbrev pub attach : Space → (c h : ℕ) → Space
attach v c h = change (change v c (set_next h)) h (set_parent c)

-- `reset_list_from_this_point`, at the index `i`, behind the sound header `p`.
abbrev pub reset_from : HeaderType → Space → (h i p : ℕ) → Space
reset_from t v h i p = if i == 0 || p == 0 then reset_list t v h else attach (set_count t v i) p h

-- The loop of `no_proper_end`, with `rounds` left of `r_count`.
unfoldable pub find_end : HeaderType → (rounds : ℕ) → Space → (h i p c : ℕ) → Space
find_end t zero v h i p c = v
find_end t (suc rounds) v h i p c =
    let n = (v.headers c).next in
    let bad = is_bad (v.headers c) in
    let v' = if bad then unlink_header v c else v in
    let over = find_end t rounds v' h (i + 1) p n in
    let on = find_end t rounds v' h (i + 1) c n in
    if bad || is_corrupt (v'.headers c).type
    then (if n == 0 || not (same_type (v'.headers n).type t) then reset_from t v' h i p else over)
    else if n == 0
    then attach (set_count t v' ((list_of t v').count + 1)) c h
    else on

abbrev pub from_list : HeaderType → Space → ℕ → Space
from_list t v h =
    let l = list_of t v in find_end t l.count (with_list t v (record l { end = h })) h 0 0 l.list

unfoldable pub link_header : Space → ℕ → Bool × Space
link_header v h =
    let v' = change v h (λ x. record x { next = 0; parent = 0 }) in
    let t = (v.headers h).type in
    let l = list_of t v in
    if not (usable v.region) || h == 0
    then (false, v)
    else if is_corrupt t
    then (false, v')
    else if l.count == 0 || l.list == 0
    then (true, reset_list t v' h)
    else if l.end == 0 || (is_bad (v'.headers l.end) || is_corrupt (v'.headers l.end).type)
    then (true, from_list t v' h)
    else (true, attach (set_count t v' (l.count + 1)) l.end h)
