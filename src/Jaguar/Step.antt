-- ===== src/Jaguar/Step.antt =====
-- One access to a module, as steps on the array of modules.
use ig_cachesim.Common.{
  ℕ, ◌-◌, ◌<◌, ◌≡◌, ◌≢◌, ◌∙◌, arith, get_or-set_self, get_or-set_ne, Bool-cases, inl, inr,
}
use ig_cachesim.Cache
use ig_cachesim.Cache.Valid.{invalidate-IsValid}
use ig_cachesim.Jaguar.{
  AccessMode, is_write, jaguar_l2, JaguarModule, JaguarCacheSim, module_at, set_module, kick_cores,
  before_write, look_up, access_module,
}
use ig_cachesim.Jaguar.Valid.{
  IsModule, IsSim, l2_geometry, set_module-IsSim, kick_cores-IsModule, look_up-IsModule,
}

pub module_at-set_self :
    {sim : JaguarCacheSim} (i : ℕ) (m : JaguarModule)
    → IsSim sim
    → i < 2
    → module_at (set_module sim i m) i ≡ m
module_at-set_self {sim} i m v lt = get_or-set_self sim.modules i m _ (omega (arith, v.count))

pub module_at-set_ne :
    (sim : JaguarCacheSim) (i j : ℕ) (m : JaguarModule)
    → i ≢ j
    → module_at (set_module sim i m) j ≡ module_at sim j
module_at-set_ne sim i j m n = get_or-set_ne sim.modules i j m _ n

-- What the block for writes leaves: this module with the line kicked out of its other cores, and the
-- other module with the line out of its L2.
pub record BeforeWrite (sim ready : JaguarCacheSim) (this core addr : ℕ) : Type 0 where
  pub valid : IsSim ready
  pub mine : module_at ready this ≡ kick_cores 4 0 core addr (module_at sim this)
  pub others : module_at ready (1 - this) ≡ record (module_at sim (1 - this)) {
    level2 = Cache.invalidate jaguar_l2 (module_at sim (1 - this)).level2 addr;
  }

pub before_write-BeforeWrite :
    {sim : JaguarCacheSim} (this core addr : ℕ)
    → IsSim sim
    → this < 2
    → BeforeWrite sim (before_write sim this core addr) this core addr
unfolding before_write
before_write-BeforeWrite {sim} this core addr v lt = rw other (record {
  valid =
      set_module-IsSim (1 - this) purged kicked-IsSim (omega arith)
        (record { d1 = them.d1; i1 = them.i1; l2 = invalidate-IsValid l2_geometry addr them.l2 })
        (kicked-IsSim.other (1 - this) (omega arith));
  mine = module_at-set_ne kicked (1 - this) this _ (omega arith) ∙ mine;
  others =
      module_at-set_self (1 - this) purged kicked-IsSim (omega arith)
      ∙ rw (module_at-set_ne sim this (1 - this) _ (omega arith));
})
  where
    kick :
        IsModule (kick_cores 4 0 core addr (module_at sim this))
        × ((kick_cores 4 0 core addr (module_at sim this)).other_module
            ≡ (module_at sim this).other_module)
    kick = kick_cores-IsModule 4 0 core addr (omega arith) (v.each this lt)

    kicked : JaguarCacheSim
    kicked = set_module sim this (kick_cores 4 0 core addr (module_at sim this))

    kicked-IsSim : IsSim kicked
    kicked-IsSim = set_module-IsSim this _ v lt kick.0 (kick.1 ∙ v.other this lt)

    mine : module_at kicked this ≡ kick_cores 4 0 core addr (module_at sim this)
    mine = module_at-set_self this _ v lt

    other : (module_at kicked this).other_module ≡ 1 - this
    other = kicked-IsSim.other this lt

    purged : JaguarModule
    purged = record (module_at kicked (1 - this)) {
      level2 = Cache.invalidate jaguar_l2 (module_at kicked (1 - this)).level2 addr;
    }

    them : IsModule (module_at kicked (1 - this))
    them = kicked-IsSim.each (1 - this) (omega arith)

pub look_up-IsSim :
    {sim : JaguarCacheSim} (this core addr : ℕ) (mode : AccessMode)
    → IsSim sim
    → this < 2
    → core < 4
    → IsSim (set_module sim this (look_up (module_at sim this) core addr mode).1)
look_up-IsSim {sim} this core addr mode v lt h =
    let r = look_up-IsModule core addr mode h (v.each this lt) in
    set_module-IsSim this _ v lt r.0 (r.1 ∙ v.other this lt)

-- Every access of a core to a module keeps a well-formed simulator well formed.
pub access_module-IsSim :
    {sim : JaguarCacheSim} (this core addr : ℕ) (mode : AccessMode)
    → IsSim sim
    → this < 2
    → core < 4
    → IsSim (access_module sim this core addr mode).1
unfolding access_module
access_module-IsSim {sim} this core addr mode v lt h = elim (Bool-cases (is_write mode)) [
  | inl e ↦
      rw e (
        look_up-IsSim this core addr mode (before_write-BeforeWrite this core addr v lt).valid lt h)
  | inr e ↦ rw e (look_up-IsSim this core addr mode v lt h)
]
