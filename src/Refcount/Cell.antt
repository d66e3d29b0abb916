-- ===== src/Refcount/Cell.antt =====
-- The allocation behind an `Arc` or an `Rc` of the standard library, by its documentation: the count of
-- strong pointers and the value. Weak pointers only keep the memory allocated, and are not counted.
pub mod Events
use gulf.Prelude.{
  ℕ, zero, suc, ◌+◌, ◌-◌, Bool, Option, none, some, List, [], ◌∷◌, if◌then◌else◌, ◌==◌,
}
use gulf.Outcome.{Outcome, returns, panics, undefined, ◌>>=◌}

-- Of the strong pointers, `held` count those that a program has as `Arc<T>` or `Rc<T>`. The memory is
-- initialised where `value` is not `none`.
pub record Cell (T : Type 0) : Type 0 where
  pub strong : ℕ
  pub held : ℕ
  pub value : Option T

-- What a program does with the weak pointers it was given and the strong pointers made of them.
pub data Event : Type 0 where
  upgrade clone read release : Event

module _ {T : Type 0} where
  -- A strong pointer that is dropped. The last one destroys the value.
  abbrev destroy : Option T → ℕ → Outcome (Cell T)
  destroy none n = undefined
  destroy (some t) n = returns (record { strong = 0; held = n; value = none })

  abbrev released : Cell T → ℕ → Outcome (Cell T)
  released c n =
      if c.strong - 1 == 0
      then destroy c.value n
      else returns (record c { strong = c.strong - 1; held = n })

  abbrev seen : Option T → Cell T → Outcome (Cell T)
  seen none c = undefined
  seen (some t) c = returns c

  abbrev upgraded : Cell T → Cell T
  upgraded c = if c.strong == 0 then c else record c { strong = suc c.strong; held = suc c.held }

  -- An event that no pointer is there for does nothing.
  abbrev pub act_held : Event → ℕ → Cell T → Outcome (Cell T)
  act_held upgrade n c = returns (upgraded c)
  act_held clone zero c = returns c
  act_held clone (suc n) c = returns (record c { strong = suc c.strong; held = suc c.held })
  act_held read zero c = returns c
  act_held read (suc n) c = seen c.value c
  act_held release zero c = returns c
  act_held release (suc n) c = released c n

  unfoldable pub act : Event → Cell T → Outcome (Cell T)
  act e c = act_held e c.held c

  unfoldable pub play : List Event → Cell T → Outcome (Cell T)
  play [] c = returns c
  play (e ∷ es) c = do d ← act e c; play es d

-- `core::sync::atomic::Ordering`.
pub data MemoryOrder : Type 0 where
  relaxed release_order acquire acq_rel seq_cst : MemoryOrder

-- The count that is loaded, and the fence after the load.
pub record Loaded : Type 0 where
  pub count : ℕ
  pub fence : Option MemoryOrder

unfoldable pub load_count : ℕ → Option MemoryOrder → Outcome Loaded
load_count n none = returns (record { count = n; fence = none })
load_count n (some relaxed) = returns (record { count = n; fence = none })
load_count n (some acquire) = returns (record { count = n; fence = some acquire })
load_count n (some seq_cst) = returns (record { count = n; fence = some seq_cst })
load_count n (some release_order) = panics
load_count n (some acq_rel) = panics
