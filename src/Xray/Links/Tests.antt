-- ===== src/Xray/Links/Tests.antt =====
-- A user of the Xray core who connects, is revoked and connects again; and one who connects while it is
-- being added.
use v2bx_outbound.Base.{true, false, none, some, ◌≡◌, refl}
use v2bx_outbound.Xray.Links.{
  System, Reach, idle, dispatches, adds, looks_again, disallows, loads, forgets, clears, allows,
  here, next, retires, unloads, closes_unloaded, retire, unload_manager, close_unloaded, start,
  link_manager, add_link, look_again, disallow, load_manager, forget_manager, clear_manager, allow,
  close_all,
}

abbrev known : System
known = allow "k" (clear_manager "k" start)

known-Reach : Reach known
unfolding start clear_manager
known-Reach = next (next here (clears "k" refl refl)) (allows "k" refl)

abbrev connected : System
connected = look_again 7 0 (add_link 7 0 (link_manager 7 "k" known))

connected-Reach : Reach connected
unfolding start clear_manager allow link_manager add_link
connected-Reach =
    next (next (next known-Reach (dispatches 7 "k" refl refl refl refl)) (adds 7 0 refl))
      (looks_again 7 0 refl)

-- Retiring the node takes the link.
abbrev retired : System
retired = close_unloaded 0 (unload_manager "k" (retire "k" connected))

retired-Reach : Reach retired
unfolding start clear_manager allow link_manager add_link look_again retire unload_manager
retired-Reach =
    next (next (next connected-Reach (retires "k" refl)) (unloads "k" refl))
      (closes_unloaded "k" 0 refl)

retired_closing : (retired.closing 7 ≡ true) × (retired.manager_of "k" ≡ none)
unfolding start clear_manager allow link_manager add_link look_again retire unload_manager
    close_unloaded close_all
retired_closing = (refl, refl)

-- The user connects between AddUser of the library and the end of AddUsers, which forgets the link
-- manager; the later revocation finds none.
abbrev hidden : System
hidden = look_again 7 0 (allow "k" (clear_manager "k" (add_link 7 0 (link_manager 7 "k" start))))

abbrev leaked : System
leaked = forget_manager "k" (load_manager "k" (disallow "k" hidden))

leaked-Reach : Reach leaked
unfolding start clear_manager allow link_manager add_link look_again disallow load_manager
leaked-Reach =
    next
      (next
        (next
          (next
            (next
              (next (next (next here (dispatches 7 "k" refl refl refl refl)) (adds 7 0 refl))
                (clears "k" refl refl))
              (allows "k" refl))
            (looks_again 7 0 refl))
          (disallows "k" refl))
        (loads "k" refl))
      (forgets "k" refl)

leaked_open :
    (leaked.open_link 7 ≡ some 0)
    × (leaked.allowed "k" ≡ false)
    × (leaked.closing 7 ≡ false)
    × (leaked.work ≡ idle)
unfolding start clear_manager allow link_manager add_link look_again disallow load_manager
    forget_manager
leaked_open = (refl, refl, refl, refl)
