-- ===== src/Config/Configured.antt =====
-- What `main` of src/main.cc has settled once a general is created.
use byzantine_agreement.Common.{
  ℕ, ◌+◌, ◌^◌, ◌<◌, ◌≤◌, ◌≡◌, ◌↔◌, sym, ap, ◌∙◌, arith, true, Option, none, some, length, Text, ok,
  ◌>>=◌, ok-injective, >>=-eq-ok, subst, Result,
}
use byzantine_agreement.Common.Int.{ℤ, pos, to_u16, int_eq}
use byzantine_agreement.Net.{Address}
use byzantine_agreement.Msg.{Order}
use byzantine_agreement.Behavior.{MaliciousBehavior, get_malicious_behavior}
use byzantine_agreement.Generals.Base.{ProcessList}
use byzantine_agreement.Config.{
  Flags, Host, Process, configure, get_processes, determine_id, process_at, required, to_nat,
  validate_commander_id, validate_faulty_count, validate_order, create_general,
}
use byzantine_agreement.Config.Identity.{IsHere, determine_id-IsHere}
use byzantine_agreement.Config.Checks.{
  required-some, validate_commander_id-listed, validate_faulty_count-enough, validate_order-Given,
  process_at-place,
}
use byzantine_agreement.Config.Roles.{Role, create_general-Role}

-- The processes that the hostfile lists.
abbrev pub read_processes : Host → Flags → Text → Result ProcessList
read_processes host flags hostfile =
    get_processes (host.read_file hostfile)
      (elim flags.port [ none ↦ none | some p ↦ some (to_u16 p) ])

pub record IsConfigured (host : Host) (flags : Flags) (my_id : ℕ) (p : Process) : Type 0 where
  pub hostfile : Text
  pub listed : ProcessList
  pub faulty : ℕ
  pub commander_id : ℕ
  pub has_hostfile : flags.hostfile ≡ some hostfile
  pub has_faulty : flags.faulty ≡ some (pos faulty)
  pub has_commander : flags.commander_id ≡ some (pos commander_id)
  pub from_file : read_processes host flags hostfile ≡ ok listed
  pub is_here : IsHere host.platform.kernel.this_host listed my_id
  pub enough : faulty + 2 ≤ length listed
  pub commander_is_listed : commander_id < length listed
  pub role : Role host.platform.kernel listed commander_id faulty my_id flags p

-- A step that succeeds, for what follows from it.
after_ok :
    {A B C : Type 0} (r : Result A) {f : A → Result B} {b : B}
    → (r >>= f) ≡ ok b
    → ((a : A) → r ≡ ok a → f a ≡ ok b → C)
    → C
after_ok r e k = let (a, e₁, e₂) = >>=-eq-ok r _ e in k a e₁ e₂

same_place : (i k c : ℕ) → i ≡ k → (int_eq (pos k) (pos c) ≡ true) ↔ (i ≡ c)
unfolding int_eq
same_place i k c e = ground (arith, e)

-- All that `main` has found, put together.
settled :
    (host : Host) (flags : Flags) (my_id : ℕ) (p : Process) (file : Text)
    (faulty commander_id id : ℤ) (listed processes : ProcessList) (me : ℕ × Address)
    (order : Option Order) (b : MaliciousBehavior) {u : Unit {0}}
    → length listed ≤ 2 ^ 31
    → required flags.hostfile ≡ ok file
    → required flags.faulty ≡ ok faulty
    → required flags.commander_id ≡ ok commander_id
    → read_processes host flags file ≡ ok listed
    → determine_id host.platform.kernel.this_host listed flags.id ≡ ok id
    → process_at listed id ≡ ok me
    → validate_commander_id listed commander_id ≡ ok processes
    → validate_faulty_count processes faulty ≡ ok u
    → validate_order flags.order (int_eq id commander_id) ≡ ok order
    → get_malicious_behavior flags.malicious (int_eq id commander_id) ≡ ok b
    → create_general host processes me.0 me.1.port (to_nat faulty) order b ≡ ok p
    → me.0 ≡ my_id
    → IsConfigured host flags my_id p
settled host flags my_id p file faulty commander_id id listed processes me order b small f₁ f₂ f₃ f₄
      f₅ f₆ f₇ f₈ f₉ f₁₀ f₁₁ same =
    let (k, is_k, here) =
      determine_id-IsHere host.platform.kernel.this_host listed flags.id id small f₅ in
    let (c, is_c, lt, long, swap) = validate_commander_id-listed listed processes commander_id f₇ in
    let (f, is_f, enough) = validate_faulty_count-enough processes faulty f₈ in
    let place : me.0 ≡ k = process_at-place listed k me (rw is_k at f₆) in
    let own : my_id ≡ k = sym same ∙ place in
    record {
      hostfile = file;
      listed = listed;
      faulty = f;
      commander_id = c;
      has_hostfile = required-some flags.hostfile f₁;
      has_faulty = required-some flags.faulty f₂ ∙ ap some is_f;
      has_commander = required-some flags.commander_id f₃ ∙ ap some is_c;
      from_file = f₄;
      is_here = rw own here;
      enough = omega (arith, enough, long);
      commander_is_listed = lt;
      role =
          create_general-Role listed processes c f flags b swap host my_id me.1.port
            (int_eq (pos k) (pos c)) order p (same_place my_id k c own)
            (validate_order-Given flags.order order (int_eq (pos k) (pos c))
              (rw (is_k, is_c) at f₉))
            (rw (is_k, is_c) at f₁₀) (rw (is_f, same) at f₁₁);
    }

-- If a general is created, and the hostfile lists no more processes than an int can number, then
-- the flags name a hostfile, a number of faulty processes and a commander; the hostfile places this
-- process on its host, at its id, lists the commander, and has at least two processes more than may
-- be faulty. The general is a commander if its id is the commander's, and then has the order,
-- attack or retreat, that its flag spells; otherwise it is a lieutenant with this id that has seen
-- nothing, and no order was given. It is in its first round, has the commander's process in front
-- of its list, and behaves in just the ways that the flags name, which are all permitted to its
-- kind.
pub configure-IsConfigured :
    (host : Host) (flags : Flags) (my_id : ℕ) (p : Process)
    → ((file : Text) (ps : ProcessList)
        → flags.hostfile ≡ some file
        → read_processes host flags file ≡ ok ps
        → length ps ≤ 2 ^ 31)
    → configure host flags ≡ ok (my_id, p)
    → IsConfigured host flags my_id p
unfolding configure
configure-IsConfigured host flags my_id p small e =
    after_ok (required flags.hostfile) e (λ file f₁ e₁.
      after_ok (required flags.faulty) e₁ (λ faulty f₂ e₂.
        after_ok (required flags.commander_id) e₂ (λ cmd f₃ e₃.
          after_ok (read_processes host flags file) e₃ (λ listed f₄ e₄.
            after_ok (determine_id host.platform.kernel.this_host listed flags.id) e₄ (λ id f₅ e₅.
              after_ok (process_at listed id) e₅ (λ me f₆ e₆.
                after_ok (validate_commander_id listed cmd) e₆ (λ processes f₇ e₇.
                  after_ok (validate_faulty_count processes faulty) e₇ (λ u f₈ e₈.
                    after_ok (validate_order flags.order (int_eq id cmd)) e₈ (λ order f₉ e₉.
                      after_ok (get_malicious_behavior flags.malicious (int_eq id cmd)) e₉
                        (λ b f₁₀ e₁₀.
                          after_ok
                            (create_general host processes me.0 me.1.port (to_nat faulty) order b)
                            e₁₀
                            (λ q f₁₁ e₁₁.
                              let both = ok-injective e₁₁ in
                              settled host flags my_id p file faulty cmd id listed processes me
                                order b (small file listed (required-some flags.hostfile f₁) f₄) f₁
                                f₂ f₃ f₄ f₅ f₆ f₇ f₈ f₉ f₁₀
                                (subst
                                  (λ t.
                                    create_general host processes me.0 me.1.port (to_nat faulty)
                                      order b
                                    ≡ ok t)
                                  (ap (λ (t : ℕ × Process). t.1) both) f₁₁)
                                (ap (λ (t : ℕ × Process). t.0) both))))))))))))
