-- ===== src/Memory/Server.antt =====
-- memory/inc/module/memory_module.h and memory/src/module/app.c: the whole state of the memory module, its
-- settings, and its start.
use os_sski.Common.{ℕ, ◌/◌, Bool, false, Option, some, List, [], replicate, if◌then◌else◌}
use os_sski.Wire.Word.{Bytes}
use os_sski.Memory.Table.{Row}
use os_sski.Memory.Process.{Memory}
use os_sski.Memory.Clock.{Choice, clock_selector, improved_clock_selector}

-- swap_data_t
pub record SwapData : Type 0 where
  pub pid : ℕ
  pub size : ℕ
  pub offset : ℕ

-- What the configuration says, and what the system answers: whether a swap file can be opened, whether
-- so many bytes of it can be mapped, and what fresh memory holds.
pub record Settings : Type 0 where
  pub tam_memoria : ℕ
  pub tam_pagina : ℕ
  pub entradas_por_tabla : ℕ
  pub marcos_por_proceso : ℕ
  pub algoritmo_is_clock : Bool
  pub opens : ℕ → Bool
  pub maps : ℕ → Bool
  pub malloc : ℕ → Bytes

-- memory_t with the swap files, and the static clock of its selector.
pub record Server : Type 0 where
  pub memory : Memory
  pub main_memory : Bytes
  pub swap_data : List SwapData
  pub clock : ℕ
  pub files : ℕ → Option Bytes

unfoldable pub frame_selector : Settings → ℕ → List Row → Option Choice
unfolding clock_selector improved_clock_selector
frame_selector c clock rows =
    if c.algoritmo_is_clock
    then clock_selector clock rows
    else some (improved_clock_selector clock rows)

-- The swap files are those that an earlier run left.
unfoldable pub on_init_memory : Settings → (ℕ → Option Bytes) → Server
on_init_memory c left = record {
  memory = record {
    max_rows = c.entradas_por_tabla;
    max_frames = c.marcos_por_proceso;
    frames = replicate (c.tam_memoria / c.tam_pagina) false;
    tables_lvl_1 = [];
    tables_lvl_2 = [];
  };
  main_memory = c.malloc c.tam_memoria;
  swap_data = [];
  clock = 0;
  files = left;
}
