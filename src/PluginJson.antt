-- ===== src/PluginJson.antt =====
-- src/PluginJson.cpp and include/smba/PluginJson.h: the machine-readable log records.
pub mod Escape
pub mod Utf8
pub mod Grammar
pub mod EscapeSound
pub mod Json
pub mod Format
pub mod Spelled
pub mod FormatSound
