-- ===== src/Avmf/RegionAlloc/Kept.antt =====
-- Kernel/mm/avmf.c: what `avmf_link_header` and `avmf_unlink_header` leave alone, whatever the
-- lists hold: the region, and the addresses and sizes of all headers. No header comes into the cache.
use aos.Base.{ℕ, zero, suc, ◌+◌, ◌≡◌, refl, ◌∙◌, Bool, true, false, not, ◌&&◌, ◌||◌, ◌==◌}
use aos.Base.{if◌then◌else◌, if_lem}
use aos.Avmf.{usable}
use aos.Avmf.Headers.{
  Header, HeaderType, corrupt, cache, alloc, HeaderList, Space, change, set_type,
}
use aos.Avmf.Headers.{set_next, set_parent, is_bad, is_corrupt, list_of, with_list, same_type}
use aos.Avmf.Headers.{
  detach_next, detach_parent, shrink, unlinked, unlink_header, set_count, attach,
}
use aos.Avmf.Headers.{reset_from, find_end, from_list, link_header}

-- The fields that the lists do not use.
abbrev pub data_of : Header → ℕ × ℕ × ℕ × ℕ × ℕ × Bool
data_of x = (x.signature, x.version, x.virt_addr, x.phys_addr, x.size, x.used)

pub record Kept (v v' : Space) : Type 0 where
  pub region : v'.region ≡ v.region
  pub same : (a : ℕ) → data_of (v'.headers a) ≡ data_of (v.headers a)
  pub uncached :
      (a : ℕ)
      → same_type (v.headers a).type cache ≡ false
      → same_type (v'.headers a).type cache ≡ false

Kept_refl : (v : Space) → Kept v v
Kept_refl v = record { region = refl; same = λ a. refl; uncached = λ a e. e }

Kept_trans : {u v w : Space} → Kept u v → Kept v w → Kept u w
Kept_trans k l = record {
  region = l.region ∙ k.region;
  same = λ a. l.same a ∙ k.same a;
  uncached = λ a e. l.uncached a (k.uncached a e);
}

change-Kept :
    (v : Space) (h : ℕ) (f : Header → Header)
    → ((x : Header) → data_of (f x) ≡ data_of x)
    → ((x : Header) → same_type x.type cache ≡ false → same_type (f x).type cache ≡ false)
    → Kept v (change v h f)
change-Kept v h f e g = record {
  region = refl;
  same = λ a. if_lem (λ x. data_of x ≡ data_of (v.headers a)) (a == h) (e (v.headers a)) refl;
  uncached =
      λ a c. if_lem (λ (x : Header). same_type x.type cache ≡ false) (a == h) (g (v.headers a) c) c;
}

mark-Kept : (v : Space) (h : ℕ) → Kept v (change v h (set_type corrupt))
mark-Kept v h = change-Kept v h (set_type corrupt) (λ x. refl) (λ x e. refl)

with_list-Kept : (t : HeaderType) (v : Space) (l : HeaderList) → Kept v (with_list t v l)
with_list-Kept cache v l = record { region = refl; same = λ a. refl; uncached = λ a e. e }
with_list-Kept alloc v l = record { region = refl; same = λ a. refl; uncached = λ a e. e }
with_list-Kept corrupt v l = Kept_refl v

clear-Kept : (v : Space) (h : ℕ) → Kept v (change v h (λ x. record x { next = 0; parent = 0 }))
clear-Kept v h = change-Kept v h (λ x. record x { next = 0; parent = 0 }) (λ x. refl) (λ x e. e)

attach-Kept : (v : Space) (c h : ℕ) → Kept v (attach v c h)
attach-Kept v c h =
    Kept_trans (change-Kept v c (set_next h) (λ x. refl) (λ x e. e))
      (change-Kept (change v c (set_next h)) h (set_parent c) (λ x. refl) (λ x e. e))

detach_next-Kept : (v : Space) (n p : ℕ) → Kept v (detach_next v n p).0
detach_next-Kept v n p =
    if_lem (λ (r : Space × ℕ × Bool). Kept v r.0) (n == 0) (Kept_refl v)
      (if_lem (λ (r : Space × ℕ × Bool). Kept v r.0) (is_bad (v.headers n)) (mark-Kept v n)
        (change-Kept v n (set_parent p) (λ x. refl) (λ x e. e)))

detach_parent-Kept :
    (u : Space) (r : Space × ℕ × Bool) (p : ℕ) → Kept u r.0 → Kept u (detach_parent r p).0
detach_parent-Kept u (v, n, poisoned) p k =
    let P : Space × Bool → Type 0 = λ r. Kept u r.0 in
    let cut_off = change v n (set_parent 0) in
    if_lem P (p == 0) k (
      if_lem P (not (is_bad (v.headers p)))
        (Kept_trans k
          (change-Kept v p (set_next (if poisoned then 0 else n)) (λ x. refl) (λ x e. e)))
        (if_lem P (not poisoned && not (n == 0))
          (Kept_trans k (
            Kept_trans (change-Kept v n (set_parent 0) (λ x. refl) (λ x e. e))
              (mark-Kept cut_off p)))
          k))

unlinked-Kept :
    (t : HeaderType) (u : Space) (h : ℕ) (r : Space × Bool) → Kept u r.0 → Kept u (unlinked t h r)
unlinked-Kept t u h (v, true) k = Kept_trans k (mark-Kept v h)
unlinked-Kept t u h (v, false) k =
    let l = shrink (list_of t v) h (v.headers h) in
    Kept_trans k (Kept_trans (with_list-Kept t v l) (clear-Kept (with_list t v l) h))

pub unlink_header-Kept : (v : Space) (h : ℕ) → Kept v (unlink_header v h)
unfolding unlink_header
unlink_header-Kept v h =
    let x = v.headers h in
    if_lem (Kept v) (h == 0 || not (usable v.region)) (Kept_refl v) (
      if_lem (Kept v) (is_corrupt x.type) (Kept_refl v) (
        if_lem (Kept v) ((list_of x.type v).count == 0) (mark-Kept v h) (
          unlinked-Kept x.type v h (detach_parent (detach_next v x.next x.parent) x.parent) (
            detach_parent-Kept v (detach_next v x.next x.parent) x.parent
              (detach_next-Kept v x.next x.parent)))))

reset_from-Kept : (t : HeaderType) (v : Space) (h i p : ℕ) → Kept v (reset_from t v h i p)
reset_from-Kept t v h i p =
    if_lem (Kept v) (i == 0 || p == 0)
      (with_list-Kept t v (record { list = h; count = 1; end = h }))
      (Kept_trans (with_list-Kept t v (record (list_of t v) { count = i }))
        (attach-Kept (set_count t v i) p h))

find_end-Kept :
    (t : HeaderType) (rounds : ℕ) (v : Space) (h i p c : ℕ) → Kept v (find_end t rounds v h i p c)
unfolding find_end
find_end-Kept t zero v h i p c = Kept_refl v
find_end-Kept t (suc rounds) v h i p c =
    let n = (v.headers c).next in
    let bad = is_bad (v.headers c) in
    let v' = if bad then unlink_header v c else v in
    let l = list_of t v' in
    let k : Kept v v' = if_lem (Kept v) bad (unlink_header-Kept v c) (Kept_refl v) in
    if_lem (Kept v) (bad || is_corrupt (v'.headers c).type)
      (if_lem (Kept v) (n == 0 || not (same_type (v'.headers n).type t))
        (Kept_trans k (reset_from-Kept t v' h i p))
        (Kept_trans k (find_end-Kept t rounds v' h (i + 1) p n)))
      (if_lem (Kept v) (n == 0)
        (Kept_trans k (
          Kept_trans (with_list-Kept t v' (record l { count = l.count + 1 }))
            (attach-Kept (set_count t v' (l.count + 1)) c h)))
        (Kept_trans k (find_end-Kept t rounds v' h (i + 1) c n)))

from_list-Kept : (t : HeaderType) (v : Space) (h : ℕ) → Kept v (from_list t v h)
from_list-Kept t v h =
    let l = list_of t v in
    Kept_trans (with_list-Kept t v (record l { end = h }))
      (find_end-Kept t l.count (with_list t v (record l { end = h })) h 0 0 l.list)

pub link_header-Kept : (v : Space) (h : ℕ) → Kept v (link_header v h).1
unfolding link_header
link_header-Kept v h =
    let P : Bool × Space → Type 0 = λ r. Kept v r.1 in
    let v' = change v h (λ x. record x { next = 0; parent = 0 }) in
    let t = (v.headers h).type in
    let l = list_of t v in
    let k = clear-Kept v h in
    if_lem P (not (usable v.region) || h == 0) (Kept_refl v) (
      if_lem P (is_corrupt t) k (
        if_lem P (l.count == 0 || l.list == 0)
          (Kept_trans k (with_list-Kept t v' (record { list = h; count = 1; end = h })))
          (if_lem P
            (l.end == 0 || (is_bad (v'.headers l.end) || is_corrupt (v'.headers l.end).type))
            (Kept_trans k (from_list-Kept t v' h))
            (Kept_trans k (
              Kept_trans (with_list-Kept t v' (record (list_of t v') { count = l.count + 1 }))
                (attach-Kept (set_count t v' (l.count + 1)) l.end h))))))
