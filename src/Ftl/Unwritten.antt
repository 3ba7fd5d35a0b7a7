-- ===== src/Ftl/Unwritten.antt =====
-- Requests that reach no flash: reads of pages that were never written, and requests past the end.
use nvmevirt_slc_cache.Common.{
  ℕ, zero, suc, ◌+◌, ◌-◌, ◌/◌, ◌%◌, ◌<◌, ◌≡◌, inl, inr, refl, ap, ◌∙◌, Bool, false, not, leb,
  lt→leb-false, if-true, if-false, ◌||◌, Bool-cases, Option, none, some,
}
use nvmevirt_slc_cache.Ppa.{mapped_ppa}
use nvmevirt_slc_cache.Nand.{Machine}
use nvmevirt_slc_cache.Ftl.Mapping.{valid_ppa}
use nvmevirt_slc_cache.Ftl.Namespace.{Namespace, RwRequest, end_lpn}
use nvmevirt_slc_cache.Ftl.Read.{Reading, issue_read, read_page, read_pages, read_parts, conv_read}

-- No logical page of any instance has a page.
abbrev pub Blank : Namespace → Type 0
Blank ns = (i l : ℕ) → mapped_ppa ((ns.ftls i).maptbl l) ≡ false

read_page-Blank :
    (m : Machine) (part stime lpn : ℕ) (r : Reading) (ns : Namespace)
    → Blank ns
    → read_page m part stime lpn r ns ≡ some (r, ns)
unfolding read_page
read_page-Blank m part stime lpn r ns h = if-true _ _ (
    ap (λ (x : Bool). not x || not (valid_ppa (ns.ftls part) ((ns.ftls part).maptbl lpn)))
      (h part lpn))

read_pages-Blank :
    (m : Machine) (rounds part stime lpn : ℕ) (r : Reading) (ns : Namespace)
    → Blank ns
    → read_pages m rounds part stime lpn r ns ≡ some (r, ns)
unfolding read_pages
read_pages-Blank m zero part stime lpn r ns h = refl
read_pages-Blank m (suc n) part stime lpn r ns h =
    ap
      (λ (o : Option (Reading × Namespace)). elim o [
        | none ↦ none
        | some (r', ns') ↦ read_pages m n part stime (lpn + 1) r' ns'
      ])
      (read_page-Blank m part stime lpn r ns h)
    ∙ read_pages-Blank m n part stime (lpn + 1) r ns h

read_parts-Blank :
    (m : Machine) (n start end stime latest : ℕ) (ns : Namespace)
    → Blank ns
    → read_parts m n start end stime latest ns ≡ some (latest, ns)
unfolding read_parts
read_parts-Blank m zero start end stime latest ns h = refl
read_parts-Blank m (suc n) start end stime latest ns h = elim (Bool-cases (leb start end)) [
  | inl e ↦
      if-true _ _ e
      ∙ ap (λ (o : Option (Reading × Namespace)). elim o [ none ↦ none | some (r, t) ↦ after r t ])
          (read_pages-Blank m ((end - start) / ns.nr_parts + 1) part stime (start / ns.nr_parts)
            nothing ns h)
      ∙ read_parts-Blank m n (start + 1) end stime latest ns h
  | inr e ↦ if-false _ _ e
]
  where
    part : ℕ
    part = start % ns.nr_parts

    nothing : Reading
    nothing = record {
      xfer_size = 0;
      prev_ppa = (ns.ftls part).maptbl (start / ns.nr_parts);
      nsecs_latest = latest;
    }

    after : Reading → Namespace → Option (ℕ × Namespace)
    after r t = elim (issue_read m part stime r t) [
      | none ↦ none
      | some (done, u) ↦ read_parts m n (start + 1) end stime done u
    ]

-- A read inside a namespace of which no page was ever written completes at its start time, costs
-- no flash time and changes nothing.
pub conv_read-Blank :
    (m : Machine) (q : RwRequest) (ns : Namespace)
    → Blank ns
    → end_lpn (ns.ftls 0).ssd.sp q / ns.nr_parts < (ns.ftls 0).ssd.sp.tt_pgs
    → conv_read m q ns ≡ some (some (record { nsecs_target = q.nsecs_start }), ns)
unfolding conv_read
conv_read-Blank m q ns h k =
    if-false _ _ (lt→leb-false _ _ k)
    ∙ ap
        (λ (o : Option (ℕ × Namespace)). elim o [
          | none ↦ none
          | some (t, u) ↦ some (some (record { nsecs_target = t }), u)
        ])
        (read_parts-Blank m ns.nr_parts _ _ _ q.nsecs_start ns h)
